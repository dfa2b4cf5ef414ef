-- ===== src/Protocol/Consumed.antt =====
-- src/protocol/codec.c: what an accepted command takes from the input.
use kvstore.Common.{
  ℕ, zero, suc, ◌+◌, ◌-◌, ◌*◌, ◌%◌, ◌^◌, ◌≤◌, ◌≡◌, refl, sym, ap, arith, Bytes, List, [], ◌∷◌, ◌++◌,
  length, length-append, take, drop, take-append-drop, length-take, append_assoc, Bool, true, false,
  ◌∙◌, Bool-cases, inl, inr, ltb, ◌==◌, ◌||◌, if◌then◌else◌,
}
use kvstore.Protocol.{
  Parsed, complete, incomplete, malformed, and_then, is_digit, number_end, number_loop,
  parse_number, field_body, parse_field, parse_fields, command_body, parse_command_limited,
}

-- An answer from position `pos` on: the unread bytes are the input behind some first part, and the
-- offset has moved by the length of that part.
abbrev pub Took {ℓ} : {A : Type ℓ} → ℕ → Bytes → Parsed A → Type 0
Took pos input (complete a p rest) =
    (front : Bytes) × (input ≡ front ++ rest) × (p ≡ pos + length front)
Took pos input incomplete = Unit
Took pos input malformed = Unit

Took-if :
    {A : Type 0} (pos : ℕ) (input : Bytes) (b : Bool) (p q : Parsed A)
    → Took pos input p
    → Took pos input q
    → Took pos input (if b then p else q)
Took-if pos input true p q hp hq = hp
Took-if pos input false p q hp hq = hq

-- A byte that was read before.
Took-cons :
    {A : Type 0} (pos c : ℕ) (rest : Bytes) (p : Parsed A)
    → Took (pos + 1) rest p
    → Took pos (c ∷ rest) p
Took-cons pos c rest (complete a q r) (front, e, n) = (c ∷ front, ap (λ t. c ∷ t) e, omega arith)
Took-cons pos c rest incomplete h = tt
Took-cons pos c rest malformed h = tt

Took-trans :
    {A : Type 0} (pos q : ℕ) (front r : Bytes) (t : Parsed A)
    → q ≡ pos + length front
    → Took q r t
    → Took pos (front ++ r) t
Took-trans pos q front r (complete b q' r') n (front', e', n') = (
  front ++ front',
  ap (λ t. front ++ t) e' ∙ sym (append_assoc front front' r'),
  omega (arith, length-append front front'),
)
Took-trans pos q front r incomplete n h = tt
Took-trans pos q front r malformed n h = tt

Took-and_then :
    {A B : Type 0} (pos : ℕ) (input : Bytes) (p : Parsed A) (f : A → ℕ → Bytes → Parsed B)
    → Took pos input p
    → ((a : A) (q : ℕ) (r : Bytes) → Took q r (f a q r))
    → Took pos input (and_then p f)
Took-and_then pos input (complete a q r) f (front, e, n) h =
    rw e (Took-trans pos q front r (f a q r) n (h a q r))
Took-and_then pos input incomplete f t h = tt
Took-and_then pos input malformed f t h = tt

-- Only an accepting answer takes anything.
Took-of_complete :
    {A : Type 0} (pos : ℕ) (input : Bytes) (p : Parsed A)
    → ((a : A) (q : ℕ) (r : Bytes) → p ≡ complete a q r → Took pos input (complete a q r))
    → Took pos input p
Took-of_complete pos input (complete a q r) h = h a q r refl
Took-of_complete pos input incomplete h = tt
Took-of_complete pos input malformed h = tt

number_end-Took :
    (value pos c : ℕ) (rest : Bytes) → Took pos (c ∷ rest) (number_end value pos c rest)
unfolding number_end
number_end-Took value pos c [] = Took-if pos (c ∷ []) (c == b'\r') incomplete malformed tt tt
number_end-Took value pos c (d ∷ rest) =
    Took-if pos (c ∷ d ∷ rest) (c == b'\r') _ malformed
      (Took-if pos (c ∷ d ∷ rest) (d == b'\n') (complete value (pos + 2) rest) malformed
        (c ∷ d ∷ [], refl, omega arith) tt)
      tt

number_loop-Took : (value pos : ℕ) (input : Bytes) → Took pos input (number_loop value pos input)
unfolding number_loop
number_loop-Took value pos [] = tt
number_loop-Took value pos (c ∷ rest) =
    Took-if pos (c ∷ rest) (is_digit c) _ _
      (Took-if pos (c ∷ rest) _ malformed _ tt (
        Took-cons pos c rest _
          (number_loop-Took ((value * 10 + (c - b'0')) % 2 ^ 64) (pos + 1) rest)))
      (number_end-Took value pos c rest)

parse_number-Took : (pos : ℕ) (input : Bytes) → Took pos input (parse_number pos input)
unfolding parse_number
parse_number-Took pos [] = tt
parse_number-Took pos (c ∷ rest) =
    Took-if pos (c ∷ rest) (is_digit c) _ malformed (number_loop-Took 0 pos (c ∷ rest)) tt

field_body_complete :
    (max_bytes len pos : ℕ) (rest f : Bytes) (q : ℕ) (r : Bytes)
    → field_body max_bytes len pos rest ≡ complete f q r
    → (r ≡ drop (len + 2) rest) × (q ≡ pos + len + 2) × (len + 2 ≤ length rest) × (q ≤ max_bytes)
unfolding field_body
field_body_complete max_bytes len pos rest f q r h = ground arith

field_body-Took :
    (max_bytes len pos : ℕ) (rest : Bytes) → Took pos rest (field_body max_bytes len pos rest)
field_body-Took max_bytes len pos rest =
    Took-of_complete pos rest (field_body max_bytes len pos rest) λ f q r e.
      let (dropped, moved, there, _) = field_body_complete max_bytes len pos rest f q r e in
      (
        take (len + 2) rest,
        sym (take-append-drop (len + 2) rest) ∙ ap (λ t. take (len + 2) rest ++ t) (sym dropped),
        omega (arith, length-take (len + 2) rest),
      )

parse_field-Took :
    (max_bytes pos : ℕ) (input : Bytes) → Took pos input (parse_field max_bytes pos input)
unfolding parse_field
parse_field-Took max_bytes pos [] = tt
parse_field-Took max_bytes pos (c ∷ rest) =
    Took-if pos (c ∷ rest) (c == b'$') _ malformed
      (Took-cons pos c rest _ (
        Took-and_then (pos + 1) rest (parse_number (pos + 1) rest) (field_body max_bytes)
          (parse_number-Took (pos + 1) rest) (field_body-Took max_bytes)))
      tt

parse_fields-Took :
    (n max_bytes pos : ℕ) (input : Bytes) → Took pos input (parse_fields n max_bytes pos input)
unfolding parse_fields
parse_fields-Took zero max_bytes pos input = ([], refl, omega arith)
parse_fields-Took (suc n) max_bytes pos input =
    Took-and_then pos input (parse_field max_bytes pos input) _
      (parse_field-Took max_bytes pos input)
      (λ f q r.
        Took-and_then q r (parse_fields n max_bytes q r) _ (parse_fields-Took n max_bytes q r)
          (λ fs q' r'. ([], refl, omega arith)))

command_body-Took :
    (capacity max_bytes count offset : ℕ) (rest : Bytes)
    → Took offset rest (command_body capacity max_bytes count offset rest)
unfolding command_body
command_body-Took capacity max_bytes count offset rest =
    let body = parse_fields count max_bytes offset rest in
    let full = count == 0 || ltb capacity count in
    Took-if offset rest (ltb max_bytes offset) malformed (if full then malformed else body) tt
      (Took-if offset rest full malformed body tt (parse_fields-Took count max_bytes offset rest))

and_then-eq-complete :
    {A B : Type 0} (p : Parsed A) (f : A → ℕ → Bytes → Parsed B) {b : B} {q : ℕ} {r : Bytes}
    → and_then p f ≡ complete b q r
    → (a : A) × (n : ℕ) × (s : Bytes) × (p ≡ complete a n s) × (f a n s ≡ complete b q r)
and_then-eq-complete (complete a n s) f h = (a, n, s, refl, h)
and_then-eq-complete incomplete f h = cc
and_then-eq-complete malformed f h = cc

parse_field_within :
    (max_bytes pos : ℕ) (input f : Bytes) (q : ℕ) (r : Bytes)
    → parse_field max_bytes pos input ≡ complete f q r
    → q ≤ max_bytes
unfolding parse_field
parse_field_within max_bytes pos [] f q r h = cc
parse_field_within max_bytes pos (c ∷ rest) f q r h = elim (Bool-cases (c == b'$')) [
  | inl e ↦
      let run : and_then (parse_number (pos + 1) rest) (field_body max_bytes) ≡ complete f q r =
        ground arith in
      let (len, p, s, _, body) =
        and_then-eq-complete (parse_number (pos + 1) rest) (field_body max_bytes) run in
      (field_body_complete max_bytes len p s f q r body).3
  | inr e ↦ absurd (ground arith)
]

parse_fields_within :
    (n max_bytes pos : ℕ) (input : Bytes) (fs : List Bytes) (q : ℕ) (r : Bytes)
    → pos ≤ max_bytes
    → parse_fields n max_bytes pos input ≡ complete fs q r
    → (length fs ≡ n) × (q ≤ max_bytes)
unfolding parse_fields
parse_fields_within zero max_bytes pos input fs q r le h = ground arith
parse_fields_within (suc n) max_bytes pos input fs q r le h =
    let (f, p, s, one, more) = and_then-eq-complete (parse_field max_bytes pos input) _ h in
    let (gs, p', s', others, done) = and_then-eq-complete (parse_fields n max_bytes p s) _ more in
    let near = parse_field_within max_bytes pos input f p s one in
    let (count, far) = parse_fields_within n max_bytes p s gs p' s' near others in ground arith

command_body_within :
    (capacity max_bytes count offset : ℕ) (rest : Bytes) (fs : List Bytes) (q : ℕ) (r : Bytes)
    → command_body capacity max_bytes count offset rest ≡ complete fs q r
    → (1 ≤ length fs) × (length fs ≤ capacity) × (q ≤ max_bytes)
unfolding command_body
command_body_within capacity max_bytes count offset rest fs q r h =
    ground (arith, parse_fields_within count max_bytes offset rest fs q r)

-- An accepted command is the first part of the input, of the reported length, and what it leaves is
-- the rest; it takes at least one byte and at most `max_bytes`, and it has from one to `capacity`
-- fields.
pub parse_command_limited_consumed :
    (capacity max_bytes : ℕ) (input : Bytes) (fs : List Bytes) (n : ℕ) (rest : Bytes)
    → parse_command_limited capacity max_bytes input ≡ complete fs n rest
    → (front : Bytes) × (input ≡ front ++ rest)
      × (n ≡ length front)
      × (1 ≤ n)
      × (n ≤ max_bytes)
      × (1 ≤ length fs)
      × (length fs ≤ capacity)
unfolding parse_command_limited
parse_command_limited_consumed capacity max_bytes [] fs n rest h = absurd (ground arith)
parse_command_limited_consumed capacity max_bytes (c ∷ more) fs n rest h =
    let body = command_body capacity max_bytes in
    let run : and_then (parse_number 1 more) body ≡ complete fs n rest = ground arith in
    let (count, p, s, _, inner) = and_then-eq-complete (parse_number 1 more) body run in
    let within = command_body_within capacity max_bytes count p s fs n rest inner in
    let took : Took 1 more (complete fs n rest) = rw run at (
      Took-and_then 1 more (parse_number 1 more) body (parse_number-Took 1 more)
        (command_body-Took capacity max_bytes)) in
    let (front, e, moved) = took in
    (c ∷ front, ap (λ t. c ∷ t) e, omega arith, omega arith, within.2, within.0, within.1)
