-- ===== src/Dlq/Rewrite.antt =====
-- removeFromFile of internal/dlq/dlq.go on the files of a directory: the records that stay are written
-- to a temporary file, which is then renamed over the old one.
use tallyd.Base.{
  ℕ, zero, suc, ◌≡◌, ◌⊎◌, refl, sym, ap, ◌∙◌, inl, inr, String, false, Option, none, some, List, [],
  ◌∷◌, ◌++◌, str_eq, eq_iff, Map, lookup, insert, delete, lookup-insert, lookup-delete, take,
  append_assoc, append-nil,
}
use tallyd.Dlq.{DeadLetter}
use tallyd.Dlq.Lines.{RecordJson, record_line, write_lines}

-- os.OpenFile with O_TRUNC, File.Write and os.Rename. The sync and the close change no file.
pub data FileOp : Type 0 where
  truncates : String → FileOp
  writes : String → List ℕ → FileOp
  renames : String → String → FileOp

abbrev pub bytes_of : Option (List ℕ) → List ℕ
bytes_of none = []
bytes_of (some bytes) = bytes

abbrev move_file : String → String → Option (List ℕ) → Map (List ℕ) → Map (List ℕ)
move_file old name none dir = dir
move_file old name (some bytes) dir = insert name bytes (delete old dir)

unfoldable pub run_op : FileOp → Map (List ℕ) → Map (List ℕ)
run_op (truncates name) dir = insert name [] dir
run_op (writes name bytes) dir = insert name (bytes_of (lookup name dir) ++ bytes) dir
run_op (renames old name) dir = move_file old name (lookup old dir) dir

unfoldable pub run_ops : List FileOp → Map (List ℕ) → Map (List ℕ)
unfolding run_op
run_ops [] dir = dir
run_ops (op ∷ ops) dir = run_ops ops (run_op op dir)

-- The loop over `kept`.
unfoldable pub write_ops : RecordJson → String → List DeadLetter → List FileOp
write_ops json tmp [] = []
write_ops json tmp (r ∷ rs) = writes tmp (record_line json r) ∷ write_ops json tmp rs

-- What removeFromFile does to the files, if it removes a record.
unfoldable pub rewrite_ops : RecordJson → String → String → List DeadLetter → List FileOp
unfolding write_ops
rewrite_ops json tmp path kept = truncates tmp ∷ (write_ops json tmp kept ++ renames tmp path ∷ [])

-- A stop, by an error or a crash, after `n` of the operations and `cut` bytes of the next one, if that
-- is a write.
abbrev pub stopped : ℕ → ℕ → List FileOp → List FileOp
stopped n cut [] = []
stopped zero cut (truncates name ∷ ops) = []
stopped zero cut (writes name bytes ∷ ops) = writes name (take cut bytes) ∷ []
stopped zero cut (renames old name ∷ ops) = []
stopped (suc n) cut (op ∷ ops) = op ∷ stopped n cut ops

module _ (json : RecordJson) (tmp path : String) where
  -- The other files are as before.
  abbrev pub OthersKept : Map (List ℕ) → Map (List ℕ) → Type 0
  OthersKept dir dir' =
      (q : String) → str_eq tmp q ≡ false → str_eq path q ≡ false → lookup q dir' ≡ lookup q dir

  -- The file is the old one or the new one, whole.
  abbrev pub IsOldOrNew : List ℕ → Map (List ℕ) → Map (List ℕ) → Type 0
  IsOldOrNew new dir dir' =
      ((lookup path dir' ≡ lookup path dir) ⊎ (lookup path dir' ≡ some new)) × OthersKept dir dir'

  write_elsewhere :
      (bytes : List ℕ) (dir : Map (List ℕ)) (q : String)
      → str_eq tmp q ≡ false
      → lookup q (run_op (writes tmp bytes) dir) ≡ lookup q dir
  unfolding run_op
  write_elsewhere bytes dir q other = lookup-insert tmp q _ dir ∙ rw other refl

  wrote :
      (line done : List ℕ) (dir : Map (List ℕ))
      → lookup tmp dir ≡ some done
      → lookup tmp (run_op (writes tmp line) dir) ≡ some (done ++ line)
  unfolding run_op
  wrote line done dir h = lookup-insert tmp tmp _ dir ∙ rw ((eq_iff tmp tmp).1 refl, h) refl

  emptied : (dir : Map (List ℕ)) → lookup tmp (run_op (truncates tmp) dir) ≡ some []
  unfolding run_op
  emptied dir = lookup-insert tmp tmp [] dir ∙ rw ((eq_iff tmp tmp).1 refl) refl

  truncate_elsewhere :
      (dir : Map (List ℕ)) (q : String)
      → str_eq tmp q ≡ false
      → lookup q (run_op (truncates tmp) dir) ≡ lookup q dir
  unfolding run_op
  truncate_elsewhere dir q other = lookup-insert tmp q [] dir ∙ rw other refl

  module _ (apart : str_eq tmp path ≡ false) where
    renamed :
        (new : List ℕ) (dir : Map (List ℕ))
        → lookup tmp dir ≡ some new
        → (lookup path (run_op (renames tmp path) dir) ≡ some new)
          × OthersKept dir (run_op (renames tmp path) dir)
    unfolding run_op
    renamed new dir written = rw written (
      lookup-insert path path new (delete tmp dir) ∙ rw ((eq_iff path path).1 refl) refl,
      λ q not_tmp not_path.
          lookup-insert path q new (delete tmp dir)
          ∙ rw not_path (lookup-delete tmp q dir ∙ rw not_tmp refl),
    )

    -- From a temporary file that holds some lines, stopped anywhere.
    writes-IsOldOrNew :
        (n cut : ℕ) (kept : List DeadLetter) (done : List ℕ) (dir : Map (List ℕ))
        → lookup tmp dir ≡ some done
        → IsOldOrNew
            (done ++ write_lines json kept)
            dir
            (run_ops (stopped n cut (write_ops json tmp kept ++ renames tmp path ∷ [])) dir)
    unfolding run_ops write_ops write_lines
    writes-IsOldOrNew zero cut [] done dir h = (inl refl, λ q t p. refl)
    writes-IsOldOrNew (suc n) cut [] done dir h =
        let (new, others) = renamed done dir h in
        (inr (new ∙ ap some (sym (append-nil done))), others)
    writes-IsOldOrNew zero cut (r ∷ rs) done dir h = (
      inl (write_elsewhere (take cut (record_line json r)) dir path apart),
      λ q t p. write_elsewhere (take cut (record_line json r)) dir q t,
    )
    writes-IsOldOrNew (suc n) cut (r ∷ rs) done dir h =
        let line = record_line json r in
        let dir' = run_op (writes tmp line) dir in
        let (file, others) =
          writes-IsOldOrNew n cut rs (done ++ line) dir' (wrote line done dir h) in
        (
          elim file [
            | inl old ↦ inl (old ∙ write_elsewhere line dir path apart)
            | inr new ↦ inr (new ∙ ap some (append_assoc done line (write_lines json rs)))
          ],
          λ q t p. others q t p ∙ write_elsewhere line dir q t,
        )

    finished :
        (kept : List DeadLetter) (done : List ℕ) (dir : Map (List ℕ))
        → lookup tmp dir ≡ some done
        → lookup path (run_ops (write_ops json tmp kept ++ renames tmp path ∷ []) dir)
          ≡ some (done ++ write_lines json kept)
    unfolding run_ops write_ops write_lines
    finished [] done dir h = (renamed done dir h).0 ∙ ap some (sym (append-nil done))
    finished (r ∷ rs) done dir h =
        let line = record_line json r in
        finished rs (done ++ line) (run_op (writes tmp line) dir) (wrote line done dir h)
        ∙ ap some (append_assoc done line (write_lines json rs))

    stopped_anywhere :
        (n cut : ℕ) (kept : List DeadLetter) (dir : Map (List ℕ))
        → IsOldOrNew
            (write_lines json kept)
            dir
            (run_ops (stopped n cut (rewrite_ops json tmp path kept)) dir)
    unfolding rewrite_ops run_ops
    stopped_anywhere zero cut kept dir = (inl refl, λ q t p. refl)
    stopped_anywhere (suc n) cut kept dir =
        let (file, others) =
          writes-IsOldOrNew n cut kept [] (run_op (truncates tmp) dir) (emptied dir) in
        (
          elim file [ inl old ↦ inl (old ∙ truncate_elsewhere dir path apart) | inr new ↦ inr new ],
          λ q t p. others q t p ∙ truncate_elsewhere dir q t,
        )

    -- A rewrite is atomic. Wherever an error or a crash stops it, also in the middle of a write and
    -- whatever an earlier one has left in the temporary file, which has another name: the file is
    -- the old one, or holds exactly the lines of the records that stay, and the other files are as
    -- they were. If nothing stops it, the file holds the lines.
    pub rewrite-IsOldOrNew :
        (n cut : ℕ) (kept : List DeadLetter) (dir : Map (List ℕ))
        → IsOldOrNew
            (write_lines json kept)
            dir
            (run_ops (stopped n cut (rewrite_ops json tmp path kept)) dir)
          × (lookup path (run_ops (rewrite_ops json tmp path kept) dir)
              ≡ some (write_lines json kept))
    unfolding rewrite_ops run_ops
    rewrite-IsOldOrNew n cut kept dir = (
      stopped_anywhere n cut kept dir,
      finished kept [] (run_op (truncates tmp) dir) (emptied dir),
    )
