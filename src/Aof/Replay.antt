-- ===== src/Aof/Replay.antt =====
-- src/persistence/aof.c: what the replay of a file of commands does.
use kvstore.Common.{
  ℕ, zero, suc, ◌+◌, ◌≤◌, ◌≡◌, refl, ap, subst, arith, Bytes, Bool, true, false, ◌&&◌, ◌||◌, some,
  ltb, ◌==◌, if◌then◌else◌, length, drop, length-append, drop-append_self, append_assoc, List, [],
  ◌∷◌, ◌++◌, All,
}
use kvstore.Protocol.{complete, incomplete, size_max, parse_command, encode_command}
use kvstore.Protocol.Encoded.{command_bytes, encode_command_lem}
use kvstore.Protocol.RoundTrip.{parse_command-command_bytes, parse_command_limited_prefix}
use kvstore.Aof.{ReplayHandler, accepted, replay_loop, mapped, replay}

-- A command that the file can hold and the replay can read.
pub record IsLoggable (command : List Bytes) : Type 0 where
  pub some_field : 1 ≤ length command
  pub few : length command ≤ 3
  pub small : length (command_bytes command) ≤ size_max

-- The file of a sequence of commands.
abbrev pub log : List (List Bytes) → Bytes
log [] = []
log (c ∷ cs) = command_bytes c ++ log cs

-- The handler on one command after the other, up to the first that it does not accept; `end` is
-- what is said behind the last.
abbrev pub run_all : {S : Type 0} → ReplayHandler S → S → List (List Bytes) → Bool → S × Bool
run_all handler s [] end = (s, end)
run_all handler s (c ∷ cs) end =
    let (s', reply) = handler s c in
    let rest = run_all handler s' cs end in if accepted reply then rest else (s', false)

parse_command-loggable :
    (c : List Bytes) (rest : Bytes)
    → IsLoggable c
    → parse_command 3 (command_bytes c ++ rest) ≡ complete c (length (command_bytes c)) rest
unfolding parse_command
parse_command-loggable c rest l =
    parse_command-command_bytes 3 size_max c rest l.some_field l.few l.small l.small

parse_command-torn :
    (c : List Bytes) (front back : Bytes) (x : ℕ)
    → IsLoggable c
    → command_bytes c ≡ front ++ (x ∷ back)
    → parse_command 3 front ≡ incomplete
unfolding parse_command
parse_command-torn c front back x l e =
    let one = l.some_field in
    let fits = l.small in
    let out : encode_command c size_max ≡ some (command_bytes c) =
      ground (arith, encode_command_lem c size_max) in
    parse_command_limited_prefix 3 size_max size_max c front back x
      (subst (λ t. encode_command c size_max ≡ some t) e out) l.few
      (subst (λ t. length t ≤ size_max) e fits)

module _ {S : Type 0} (handler : ReplayHandler S) where
  -- At the end or at a command that was cut off, the replay stops.
  replay_loop-end :
      (fuel : ℕ) (s : S) (tail : Bytes)
      → length tail ≤ fuel
      → parse_command 3 tail ≡ incomplete
      → replay_loop fuel handler s tail ≡ (s, length tail == 0)
  unfolding replay_loop
  replay_loop-end zero s [] h e = refl
  replay_loop-end zero s (b ∷ bs) h e = absurd (omega arith)
  replay_loop-end (suc fuel) s [] h e = refl
  replay_loop-end (suc fuel) s (b ∷ bs) h e =
      let some_byte : (length (b ∷ bs) == 0) ≡ false = ground arith in
      rw (e, replay_loop) (rw some_byte)

  replay_loop-log :
      (cs : List (List Bytes)) (fuel : ℕ) (s : S) (tail : Bytes)
      → length (log cs ++ tail) ≤ fuel
      → All IsLoggable cs
      → parse_command 3 tail ≡ incomplete
      → replay_loop fuel handler s (log cs ++ tail) ≡ run_all handler s cs (length tail == 0)
  unfolding replay_loop
  replay_loop-log [] fuel s tail h l e = replay_loop-end fuel s tail h e
  replay_loop-log (c ∷ cs) zero s tail h l e = absurd (omega arith)
  replay_loop-log (c ∷ cs) (suc fuel) s tail h (l, ls) e =
      let bytes = command_bytes c in
      let rest = log cs ++ tail in
      let n = length-append bytes rest in
      let room : (length bytes == 0 || ltb (length (bytes ++ rest)) (length bytes)) ≡ false =
        ground (arith, n) in
      let past : drop (length bytes) (bytes ++ rest) ≡ rest =
        let zero-add : length bytes + 0 ≡ length bytes = omega arith in
        subst (λ n. drop n (bytes ++ rest) ≡ rest) zero-add (drop-append_self bytes rest 0) in
      let less : length rest ≤ fuel =
        omega (arith, n, ap length (append_assoc bytes (log cs) tail)) in
      rw (append_assoc bytes (log cs) tail) (
        rw (parse_command-loggable c rest l, replay_loop)
          (rw (room, past) (rw (replay_loop-log cs fuel (handler s c).0 tail less ls e))))

and_true : (b : Bool) → (b && true) ≡ b
and_true true = refl
and_true false = refl

-- The replay of a file in which a sequence of commands of one to three fields, each with an encoding that fits
-- a size_t, stands from the offset on, with a part of one more such command behind it, maybe nothing, but not
-- all of it, when the file can be mapped and unmapped: the handler gets exactly the whole commands in their order, up to the first
-- that it does not accept, and the replay succeeds only if it accepts all and no part is left over.
pub replay-log :
    {S : Type 0} (handler : ReplayHandler S) (s : S) (before : Bytes) (cs : List (List Bytes))
    (c : List Bytes) (tail back : Bytes) (x : ℕ)
    → All IsLoggable cs
    → IsLoggable c
    → command_bytes c ≡ tail ++ (x ∷ back)
    → replay true handler s (mapped (before ++ (log cs ++ tail))) (length before)
      ≡ run_all handler s cs (length tail == 0)
unfolding replay
replay-log handler s before cs c tail back x ls l e =
    let file = before ++ (log cs ++ tail) in
    let n = length-append before (log cs ++ tail) in
    let position : (if ltb (length before) (length file) then length before else length file)
        ≡ length before =
      ground (arith, n) in
    let there : drop (length before) file ≡ log cs ++ tail =
      let zero-add : length before + 0 ≡ length before = omega arith in
      subst (λ n. drop n file ≡ log cs ++ tail) zero-add
        (drop-append_self before (log cs ++ tail) 0) in
    let all =
      replay_loop-log handler cs (length file) s tail (omega (arith, n)) ls
        (parse_command-torn c tail back x l e) in
    let (s', done) = run_all handler s cs (length tail == 0) in
    rw (position, there, all) (ap (λ b. (s', b)) (and_true done))
