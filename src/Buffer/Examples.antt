-- ===== src/Buffer/Examples.antt =====
-- src/network/buffer.c: the buffers at concrete inputs.
use kvstore.Common.{ℕ, ◌+◌, ◌≡◌, refl, arith, codes, [], ◌∷◌, ◌++◌, true, some}
use kvstore.Buffer.{
  ensure_space, growth_loop, FrameHandler, answered, answer, batch_loop, line_batch, find_line_end,
  line_end_loop,
}
use kvstore.Buffer.Growth.{Grown, ensure_space_lem}
use kvstore.Buffer.Lines.{frames, answer_lines, IsLine, NoFeed, line_batch-frames}

-- A first allocation doubles the 1024 bytes until the request fits.
first_growth : ensure_space true 0 0 3000 ≡ some 4096
unfolding ensure_space growth_loop
first_growth = refl

ensure_space_example : Grown true 10 1024 2000 (ensure_space true 10 1024 2000)
ensure_space_example = ensure_space_lem true 10 1024 2000 (omega arith) (omega arith)

-- A handler that counts the lines and sends each back.
abbrev echo : FrameHandler ℕ
echo n line room = (n + 1, some line)

a-IsLine : IsLine (codes "ab")
a-IsLine = (omega arith, ((λ e. absurd (omega (arith, e))), ((λ e. absurd (omega (arith, e))), tt)))

c_tail : NoFeed (codes "c")
c_tail = ((λ e. absurd (omega (arith, e))), tt)

line_batch-frames_example :
    line_batch echo 0 (frames (codes "ab" ∷ codes "ab" ∷ []) ++ codes "c") 8
    ≡ answer_lines echo 0 (codes "ab" ∷ codes "ab" ∷ []) 0 [] 8
line_batch-frames_example =
    line_batch-frames echo 0 (codes "ab") (codes "ab" ∷ []) (codes "c") 8 (a-IsLine, (a-IsLine, tt))
      c_tail (omega arith)

two_lines : line_batch echo 0 (codes "ab\r\nab\r\nc") 8 ≡ answered 2 8 (codes "abab")
unfolding line_batch batch_loop find_line_end line_end_loop answer
two_lines = refl
