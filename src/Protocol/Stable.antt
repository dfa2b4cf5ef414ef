-- ===== src/Protocol/Stable.antt =====
-- src/protocol/codec.c: the parser and bytes that arrive later.
use kvstore.Common.{
  ℕ, zero, suc, ◌+◌, ◌-◌, ◌*◌, ◌%◌, ◌^◌, ◌≡◌, ◌≢◌, refl, arith, Bytes, [], ◌∷◌, ◌++◌, length-append,
  take-append_le, drop-append_le, get_or-append_lt, Bool-cases, inl, inr, ◌==◌, if◌then◌else◌,
}
use kvstore.Protocol.{
  Parsed, complete, incomplete, malformed, and_then, number_end, number_loop, parse_number,
  field_body, parse_field, parse_fields, command_body, parse_command_limited,
}

-- The answer with `more` behind what was not read.
abbrev pub extend {ℓ} : {A : Type ℓ} → Bytes → Parsed A → Parsed A
extend more (complete a pos rest) = complete a pos (rest ++ more)
extend more incomplete = incomplete
extend more malformed = malformed

number_loop-append :
    (value pos : ℕ) (input more : Bytes)
    → number_loop value pos input ≢ incomplete
    → number_loop value pos (input ++ more) ≡ extend more (number_loop value pos input)
unfolding number_loop number_end
number_loop-append value pos [] more h = absurd (h refl)
number_loop-append value pos (c ∷ []) more h = ground arith
number_loop-append value pos (c ∷ d ∷ rest) more h =
    ground
      (arith, number_loop-append ((value * 10 + (c - b'0')) % 2 ^ 64) (pos + 1) (d ∷ rest) more)

pub parse_number-append :
    (pos : ℕ) (input more : Bytes)
    → parse_number pos input ≢ incomplete
    → parse_number pos (input ++ more) ≡ extend more (parse_number pos input)
unfolding parse_number
parse_number-append pos [] more h = absurd (h refl)
parse_number-append pos (c ∷ rest) more h = ground (arith, number_loop-append 0 pos (c ∷ rest) more)

-- The tests at the end of a field read only bytes that are there.
field_body-append :
    (max_bytes len pos : ℕ) (rest more : Bytes)
    → field_body max_bytes len pos rest ≢ incomplete
    → field_body max_bytes len pos (rest ++ more) ≡ extend more (field_body max_bytes len pos rest)
unfolding field_body
field_body-append max_bytes len pos rest more h = ground (
  arith,
  length-append rest more,
  take-append_le len rest more,
  drop-append_le (len + 2) rest more,
  get_or-append_lt len rest more 0,
  get_or-append_lt (len + 1) rest more 0,
)

-- A chain of two stable steps is stable.
and_then-append :
    {A B : Type 0} (p q : Parsed A) (more : Bytes) (f : A → ℕ → Bytes → Parsed B)
    → (p ≢ incomplete → q ≡ extend more p)
    → ((a : A) (pos : ℕ) (rest : Bytes)
        → f a pos rest ≢ incomplete
        → f a pos (rest ++ more) ≡ extend more (f a pos rest))
    → and_then p f ≢ incomplete
    → and_then q f ≡ extend more (and_then p f)
and_then-append (complete a pos rest) q more f hp hf h =
    rw (hp (λ e. cc), and_then) (hf a pos rest h)
and_then-append incomplete q more f hp hf h = absurd (h refl)
and_then-append malformed q more f hp hf h = rw (hp (λ e. cc))

parse_field-append :
    (max_bytes pos : ℕ) (input more : Bytes)
    → parse_field max_bytes pos input ≢ incomplete
    → parse_field max_bytes pos (input ++ more) ≡ extend more (parse_field max_bytes pos input)
unfolding parse_field
parse_field-append max_bytes pos [] more h = absurd (h refl)
parse_field-append max_bytes pos (c ∷ rest) more h = elim (Bool-cases (c == b'$')) [
  | inl e ↦
      rw (e, if◌then◌else◌)
        (and_then-append (parse_number (pos + 1) rest) (parse_number (pos + 1) (rest ++ more)) more
          (field_body max_bytes) (parse_number-append (pos + 1) rest more)
          (λ len p r. field_body-append max_bytes len p r more) (rw e at h))
  | inr e ↦ rw e
]

parse_fields-append :
    (n max_bytes pos : ℕ) (input more : Bytes)
    → parse_fields n max_bytes pos input ≢ incomplete
    → parse_fields n max_bytes pos (input ++ more)
      ≡ extend more (parse_fields n max_bytes pos input)
unfolding parse_fields
parse_fields-append zero max_bytes pos input more h = refl
parse_fields-append (suc n) max_bytes pos input more h =
    and_then-append (parse_field max_bytes pos input) (parse_field max_bytes pos (input ++ more))
      more _ (parse_field-append max_bytes pos input more)
      (λ f p r.
        and_then-append (parse_fields n max_bytes p r) (parse_fields n max_bytes p (r ++ more)) more
          _ (parse_fields-append n max_bytes p r more) (λ fs q s k. refl))
      h

command_body-append :
    (capacity max_bytes count offset : ℕ) (rest more : Bytes)
    → command_body capacity max_bytes count offset rest ≢ incomplete
    → command_body capacity max_bytes count offset (rest ++ more)
      ≡ extend more (command_body capacity max_bytes count offset rest)
unfolding command_body
command_body-append capacity max_bytes count offset rest more h =
    ground (arith, parse_fields-append count max_bytes offset rest more)

-- Once the parser has accepted or rejected an input, more bytes behind it change nothing: an
-- accepted command keeps its fields and its length, and the new bytes stay unread.
pub parse_command_limited-append :
    (capacity max_bytes : ℕ) (input more : Bytes)
    → parse_command_limited capacity max_bytes input ≢ incomplete
    → parse_command_limited capacity max_bytes (input ++ more)
      ≡ extend more (parse_command_limited capacity max_bytes input)
unfolding parse_command_limited
parse_command_limited-append capacity max_bytes [] [] h = ground arith
parse_command_limited-append capacity max_bytes [] (m ∷ more) h = ground arith
parse_command_limited-append capacity max_bytes (c ∷ rest) more h = ground (
  arith,
  and_then-append (parse_number 1 rest) (parse_number 1 (rest ++ more)) more
      (command_body capacity max_bytes) (parse_number-append 1 rest more)
      (λ count p r. command_body-append capacity max_bytes count p r more),
)
