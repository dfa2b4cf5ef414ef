-- ===== src/Buffer/Lines.antt =====
-- src/network/buffer.c: a batch of lines against its lines one by one.
use kvstore.Common.{
  ℕ, zero, suc, ◌+◌, ◌-◌, ◌≤◌, ◌≡◌, ◌≢◌, refl, ap, ◌∙◌, fun_ext, arith, Bytes, Bool, false, none,
  some, ◌==◌, ◌||◌, if◌then◌else◌, length, drop, take, length-append, take-append_self,
  drop-append_self, append_assoc, List, [], ◌∷◌, ◌++◌, All,
}
use kvstore.Buffer.{
  FrameHandler, Batch, answered, rejected, line_end_loop, find_line_end, answer, batch_loop,
  line_batch,
}

-- Bytes without a line feed.
abbrev pub NoFeed : Bytes → Type 0
NoFeed = All (λ c. c ≢ b'\n')

abbrev pub crlf : Bytes
crlf = b'\r' ∷ b'\n' ∷ []

line_end_loop-none : (i : ℕ) (cr : Bool) (s : Bytes) → NoFeed s → line_end_loop i cr s ≡ none
unfolding line_end_loop
line_end_loop-none i cr [] h = refl
line_end_loop-none i cr (c ∷ s) (hc, h) =
    ground (arith, line_end_loop-none (i + 1) (c == b'\r') s h)

line_end_loop_crlf :
    (i : ℕ) (cr : Bool) (line rest : Bytes)
    → NoFeed line
    → line_end_loop i cr (line ++ (b'\r' ∷ b'\n' ∷ rest)) ≡ some (i + length line, 2)
unfolding line_end_loop
line_end_loop_crlf i cr [] rest h = ground arith
line_end_loop_crlf i cr (c ∷ line) rest (hc, h) =
    ground (arith, line_end_loop_crlf (i + 1) (c == b'\r') line rest h)

-- A line that CR LF ends is found whole, and without a line feed there is no line.
pub find_line_end-crlf :
    (line rest : Bytes)
    → NoFeed line
    → find_line_end (line ++ (crlf ++ rest)) ≡ some (length line, 2)
unfolding find_line_end
find_line_end-crlf line rest h =
    let e : 0 + length line ≡ length line = omega arith in
    line_end_loop_crlf 0 false line rest h ∙ rw e

pub find_line_end-none : (s : Bytes) → NoFeed s → find_line_end s ≡ none
unfolding find_line_end
find_line_end-none s h = line_end_loop-none 0 false s h

-- Lines as they are sent.
pub frames : List Bytes → Bytes
frames [] = []
frames (l ∷ ls) = l ++ (crlf ++ frames ls)

-- Each line in turn goes to the handler, with the room that the replies so far have left; it stops
-- with -1 where no room is left, where the handler refuses a line or where its reply is too long.
pub answer_lines : {S : Type 0} → FrameHandler S → S → List Bytes → ℕ → Bytes → ℕ → Batch S
answer_lines handler s [] offset out room = answered s offset out
answer_lines handler s (l ∷ ls) offset out room =
    if room == 0
    then rejected s
    else answer handler s l room
        λ s' r. answer_lines handler s' ls (offset + (length l + 2)) (out ++ r) (room - length r)

-- A line that the splitter takes whole.
abbrev pub IsLine : Bytes → Type 0
IsLine l = (1 ≤ length l) × NoFeed l

frames_step :
    (l : Bytes) (ls : List Bytes) (tail : Bytes)
    → (take (length l) (frames (l ∷ ls) ++ tail) ≡ l)
      × (drop (length l + 2) (frames (l ∷ ls) ++ tail) ≡ frames ls ++ tail)
unfolding frames
frames_step l ls tail =
    let e : (l ++ (crlf ++ frames ls)) ++ tail ≡ l ++ (crlf ++ (frames ls ++ tail)) =
      append_assoc l (crlf ++ frames ls) tail in
    rw e (
      take-append_self l (crlf ++ (frames ls ++ tail)),
      drop-append_self l (crlf ++ (frames ls ++ tail)) 2,
    )

find_frames :
    (l : Bytes) (ls : List Bytes) (tail : Bytes)
    → NoFeed l
    → find_line_end (frames (l ∷ ls) ++ tail) ≡ some (length l, 2)
unfolding frames
find_frames l ls tail h =
    rw (append_assoc l (crlf ++ frames ls) tail) (find_line_end-crlf l (frames ls ++ tail) h)

answer_congr :
    {S : Type 0} (handler : FrameHandler S) (s : S) (line : Bytes) (room : ℕ)
    {f g : S → Bytes → Batch S}
    → ((s' : S) (r : Bytes) → f s' r ≡ g s' r)
    → answer handler s line room f ≡ answer handler s line room g
answer_congr handler s line room h =
    ap (answer handler s line room) (fun_ext λ s'. fun_ext λ r. h s' r)

batch_loop_step :
    {S : Type 0} (handler : FrameHandler S) (fuel : ℕ) (s : S) (input : Bytes) (n d offset : ℕ)
    (out : Bytes) (room : ℕ)
    → find_line_end input ≡ some (n, d)
    → 1 ≤ n
    → batch_loop (suc fuel) handler s input offset out room ≡ (
        if room == 0
        then rejected s
        else answer handler s (take n input) room λ s' r.
          batch_loop fuel handler s'
            (drop (n + d) input)
            (offset + (n + d))
            (out ++ r)
            (room - length r))
unfolding batch_loop
batch_loop_step handler fuel s input n d offset out room e h = rw (e, batch_loop) (ground arith)

batch_loop-frames :
    {S : Type 0} (handler : FrameHandler S) (fuel : ℕ) (s : S) (ls : List Bytes) (tail : Bytes)
    (offset : ℕ) (out : Bytes) (room : ℕ)
    → All IsLine ls
    → NoFeed tail
    → length ls ≤ fuel
    → batch_loop fuel handler s (frames ls ++ tail) offset out room
      ≡ answer_lines handler s ls offset out room
unfolding batch_loop answer_lines
batch_loop-frames handler zero s [] tail offset out room h t f = refl
batch_loop-frames handler (suc fuel) s [] tail offset out room h t f =
    let e : find_line_end (frames [] ++ tail) ≡ none = unfold frames in find_line_end-none tail t in
    rw (e, batch_loop)
batch_loop-frames handler zero s (l ∷ ls) tail offset out room h t f = absurd (omega arith)
batch_loop-frames {S} handler (suc fuel) s (l ∷ ls) tail offset out room ((nonempty, hl), h) t f =
    let (taken, dropped) = frames_step l ls tail in
    let next = λ (s' : S) (r : Bytes).
      batch_loop fuel handler s' (drop (length l + 2) (frames (l ∷ ls) ++ tail))
        (offset + (length l + 2)) (out ++ r) (room - length r) in
    batch_loop_step handler fuel s (frames (l ∷ ls) ++ tail) (length l) 2 offset out room
      (find_frames l ls tail hl) nonempty
    ∙ ap (λ b. if room == 0 then rejected s else b)
        (ap (λ x. answer handler s x room next) taken
          ∙ answer_congr handler s l room (λ s' r.
            ap
              (λ x.
                batch_loop fuel handler s' x (offset + (length l + 2)) (out ++ r) (room - length r))
              dropped
            ∙ batch_loop-frames handler fuel s' ls tail (offset + (length l + 2)) (out ++ r)
                (room - length r) h t (omega arith)))

length-frames-le : (ls : List Bytes) → length ls ≤ length (frames ls)
unfolding frames
length-frames-le [] = omega arith
length-frames-le (l ∷ ls) = omega (arith, length-append l (crlf ++ frames ls), length-frames-le ls)

-- On whole lines, each with at least one byte and ended by CR LF, and a last part that is no line
-- yet, the batch answers each line in turn, stops where `answer_lines` stops, and consumes exactly
-- the whole lines.
pub line_batch-frames :
    {S : Type 0} (handler : FrameHandler S) (s : S) (l : Bytes) (ls : List Bytes) (tail : Bytes)
    (capacity : ℕ)
    → All IsLine (l ∷ ls)
    → NoFeed tail
    → 1 ≤ capacity
    → line_batch handler s (frames (l ∷ ls) ++ tail) capacity
      ≡ answer_lines handler s (l ∷ ls) 0 [] capacity
unfolding line_batch
line_batch-frames handler s l ls tail capacity h t c =
    let n = length-append (frames (l ∷ ls)) tail in
    let m = length-frames-le (l ∷ ls) in
    let some_input : (length (frames (l ∷ ls) ++ tail) == 0 || capacity == 0) ≡ false =
      ground (arith, n, m) in
    rw some_input (
      batch_loop-frames handler (length (frames (l ∷ ls) ++ tail)) s (l ∷ ls) tail 0 [] capacity h t
        (omega (arith, n, m)))
