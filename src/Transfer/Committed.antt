-- ===== src/Transfer/Committed.antt =====
-- src/persistence/snapshot_io.c: the commit of a transfer.
use kvstore.Common.{
  not, ◌≡◌, refl, sym, ap, ◌∙◌, arith, ◌==◌, ◌||◌, Bool, true, false, ◌++◌, Bytes, some, none,
  length, append-nil, List-cases, Bool-cases, Option-cases, inl, inr,
}
use kvstore.Transfer.{Reader, Receiver, Files, put, rename, is_open, CommitEnv, writer_commit}
use kvstore.Transfer.Complete.{Agree, Transfer, Transfer-Agree}
use kvstore.Transfer.Chunks.{put-put, put_here}

-- What the calls of a commit answer, on an open receiver.
renames :
    (renamed : Bool) (temp_path final_path sent : Bytes) (before files : Files)
    → files ≡ put temp_path (some sent) before
    → renamed ≡ true
    → rename renamed temp_path final_path files
      ≡ some (put final_path (some sent) (put temp_path none before))
unfolding rename
renames renamed temp_path final_path sent before files e ok =
    let here : files temp_path ≡ some sent =
      ap (λ f. f temp_path) e ∙ put_here temp_path (some sent) before in
    rw (here, rename, ok)
      (ap (λ f. some (put final_path (some sent) (put temp_path none f))) e
        ∙ ap (λ f. some (put final_path (some sent) f)) (put-put temp_path (some sent) none before))

declines_rename :
    (renamed : Bool) (temp_path final_path : Bytes) (files : Files)
    → renamed ≡ false
    → rename renamed temp_path final_path files ≡ none
unfolding rename
declines_rename renamed temp_path final_path files bad = elim (Option-cases (files temp_path)) [
  | inl e ↦ rw (e, rename) refl
  | inr (x, e) ↦ rw (e, rename, bad) refl
]

-- What keeps a commit from happening: an empty path, bytes that are still to be read, or a call that fails.
abbrev pub hindered : CommitEnv → Bytes → Bytes → Reader → Bool
hindered env temp_path final_path r =
    length temp_path == 0
    || (length final_path == 0
        || (not (r.remaining == 0) || (not env.synced || (not env.closed || not env.renamed))))

-- A commit has given the final path the whole file and has taken the temporary one away, or has left all but
-- the temporary file alone for one of these reasons.
pub data Commits (file : Bytes) (before : Files) (temp_path final_path : Bytes) (hindrance : Bool)
    (p : Receiver × Bool) : Type 0 where
  commits :
      p.1 ≡ true
      → p.0.files ≡ put final_path (some file) (put temp_path none before)
      → Commits file before temp_path final_path hindrance p
  declines :
      (sent : Bytes)
      → p.1 ≡ false
      → p.0.files ≡ put temp_path (some sent) before
      → hindrance ≡ true
      → Commits file before temp_path final_path hindrance p

-- With nothing expected, all of the file has been sent.
all_sent :
    {file : Bytes} {before : Files} {temp_path : Bytes} {r : Reader} {w : Receiver}
    → (a : Agree file before temp_path r w) → w.remaining ≡ 0
    → a.sent ≡ file
all_sent a none_left = elim (List-cases a.left) [
  | inl e ↦ sym (a.whole ∙ ap (λ x. a.sent ++ x) e ∙ append-nil a.sent)
  | inr (b, bs, e) ↦ absurd (omega (arith, none_left, a.expected, ap length e))
]

-- A commit of a transfer to its own temporary path, whatever sync, close and rename answer: it returns 0, the
-- final path has exactly the file that is read, the temporary path none if it is another, and all other files
-- are as they were; or it returns -1, all files but the temporary one are as they were, and a path is empty,
-- something is left to read, or sync, close or rename has failed.
pub Transfer-commit :
    {file : Bytes} {before : Files} {temp_path : Bytes} {r : Reader} {w : Receiver}
    (env : CommitEnv) (final_path : Bytes)
    → Transfer file before temp_path r w
    → Commits file before temp_path final_path
        (hindered env temp_path final_path r)
        (writer_commit env temp_path final_path w)
unfolding writer_commit is_open
Transfer-commit {file} {before} {temp_path} {r} {w} env final_path t =
    let a = Transfer-Agree t in
    elim (Bool-cases (hindered env temp_path final_path r)) [
      | inl bad ↦ elim (Bool-cases env.renamed) [
        | inl ok ↦
            declines a.sent (ground (arith, bad, ok, a.opened, a.counted, a.expected))
              (ground (arith, bad, ok, a.opened, a.counted, a.expected, a.files)) bad
        | inr no_rename ↦
            let f = declines_rename env.renamed temp_path final_path w.files no_rename in
            declines a.sent (ground (arith, f)) (ground (arith, f, a.files)) bad
      ]
      | inr good ↦
          let done : env.renamed ≡ true = ground (arith, good) in
          let f = renames env.renamed temp_path final_path a.sent before w.files a.files done in
          let sent = all_sent a (ground (arith, good, a.counted, a.expected)) in
          commits (ground (arith, good, f, a.opened, a.counted, a.expected)) (
            ground (arith, good, f, a.opened, a.counted, a.expected)
            ∙ ap (λ x. put final_path (some x) (put temp_path none before)) sent)
    ]
