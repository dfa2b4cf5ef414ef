-- ===== src/Engines/Hash/Index.antt =====
-- src/engines/kvs_hash.c: which keys have an index.
use kvstore.Common.{
  ℕ, ◌+◌, ◌-◌, ◌*◌, ◌%◌, ◌≤◌, ◌<◌, ◌≡◌, refl, arith, Bytes, [], ◌∷◌, length, All, none,
}
use kvstore.Common.Int.{ℤ, pos, negsuc, ◌+ℤ◌, pos_part, neg_part}
use kvstore.Engines.Base.{Mem}
use kvstore.Engines.Hash.{
  KvHash, signed_char, sum_loop, index_of_sum, hash_index, locate, set_value, get, mod_value, del,
  exist,
}
use kvstore.Engines.Hash.Table.{IsKey}

sum_loop_ascii :
    (key : Bytes) (n : ℕ) → All (λ c. c < 128) key → (m : ℕ) × (sum_loop (pos n) key ≡ pos m)
unfolding sum_loop signed_char ◌+ℤ◌
sum_loop_ascii [] n h = (n, refl)
sum_loop_ascii (c ∷ key) n (hc, h) =
    let (m, e) = sum_loop_ascii key (n + c) h in
    let step : pos n +ℤ signed_char c ≡ pos (n + c) = ground arith in (m, rw step e)

-- Every ASCII key has an index.
pub ascii-IsKey : (key : Bytes) → All (λ c. c < 128) key → IsKey key
unfolding hash_index index_of_sum
ascii-IsKey key h = let (m, e) = sum_loop_ascii key 0 h in (m % 1024, rw e)

sum_loop_high :
    (key : Bytes) (s : ℤ)
    → pos_part s ≡ 0
    → All (λ c. (128 ≤ c) × (c < 256)) key
    → (pos_part (sum_loop s key) ≡ 0)
      × (neg_part s + length key ≤ neg_part (sum_loop s key))
      × (neg_part (sum_loop s key) ≤ neg_part s + 128 * length key)
unfolding sum_loop signed_char ◌+ℤ◌
sum_loop_high [] s h high = (h, omega arith, omega arith)
sum_loop_high (c ∷ key) s h ((lo, hi), high) =
    let step : (pos_part (s +ℤ signed_char c) ≡ 0)
        × (neg_part (s +ℤ signed_char c) ≡ neg_part s + (256 - c)) =
      ground arith in
    let (p, a, b) = sum_loop_high key (s +ℤ signed_char c) step.0 high in
    (p, omega (arith, step.1), omega (arith, step.1))

index_of_sum_low :
    (s : ℤ) → pos_part s ≡ 0 → 1 ≤ neg_part s → neg_part s < 1024 → index_of_sum s ≡ none
unfolding index_of_sum
index_of_sum_low (pos n) p a b = absurd (omega arith)
index_of_sum_low (negsuc n) p a b = ground arith

-- A key of one to seven bytes that are all 128 or above, such as one or two Chinese characters in
-- UTF-8, has a negative index: each of the five operations reads outside the table.
pub high_key_faults :
    (mem : Mem) (h : KvHash) (key value : Bytes)
    → All (λ c. (128 ≤ c) × (c < 256)) key
    → 1 ≤ length key
    → length key ≤ 7
    → (set_value mem h key value ≡ none)
      × (get h key ≡ none)
      × (mod_value mem h key value ≡ none)
      × (del h key ≡ none)
      × (exist h key ≡ none)
unfolding hash_index locate set_value get mod_value del exist
high_key_faults mem h key value high one seven =
    let (p, a, b) = sum_loop_high key (pos 0) refl high in
    let e : index_of_sum (sum_loop (pos 0) key) ≡ none =
      index_of_sum_low (sum_loop (pos 0) key) p (omega arith) (omega arith) in
    ground (arith, e)
