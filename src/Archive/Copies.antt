-- ===== src/Archive/Copies.antt =====
-- components/host/darwin/misc/image/image.go: what `Copy` writes.
use corectl.Base.{
  Bool, true, false, ◌&&◌, not, Bool-cases, inl, inr, Option, none, some, List, [], ◌∷◌, ◌++◌, Text,
  codes, ◌=t◌, ◌≡◌, refl, sym, ap, ◌∙◌, All, map, append-nil, append_assoc, select, if◌then◌else◌,
  Result, ok, err,
}
use corectl.Daemon.{Error, other}
use corectl.Archive.{Header, Member, is_dir, copy_members}

-- A writer that takes every write, and keeps the headers and the contents.
pub data Piece : Type 0 where
  header : Header → Piece
  content : Text → Piece

abbrev pub Log : Type 0
Log = List Piece

abbrev pub log_header : Header → Log → Log × Option Error
log_header h l = (l ++ header h ∷ [], none)

abbrev pub log_content : Text → Log → Log × Option Error
log_content t l = (l ++ content t ∷ [], none)

-- The members that `Copy` keeps: all but the directory ".".
abbrev pub is_kept : Member → Bool
is_kept m = not (is_dir m.header.file_type && m.header.name =t codes ".")

-- What a writer gets for a member: its header, and its content unless it is a directory.
abbrev pub pieces_of : Member → Log
pieces_of m =
    if is_dir m.header.file_type
    then header m.header ∷ []
    else header m.header ∷ content m.content ∷ []

pub pieces : List Member → Log
pieces [] = []
pieces (m ∷ ms) = pieces_of m ++ pieces ms

-- A member before the trailer that can be read to its end.
abbrev pub IsWhole : (Header → Bool) → Member → Type 0
IsWhole is_trailer m = (is_trailer m.header ≡ false) × (m.broken ≡ none)

abbrev pub copy : (Header → Bool) → List (Result Error Member) → Log → Log × Option Error
copy = copy_members log_header log_content

pieces_of_dir : (m : Member) → is_dir m.header.file_type ≡ true → pieces_of m ≡ header m.header ∷ []
pieces_of_dir m t = rw t refl

pieces_of_file :
    (m : Member)
    → is_dir m.header.file_type ≡ false
    → pieces_of m ≡ header m.header ∷ content m.content ∷ []
pieces_of_file m t = rw t refl

module _ (is_trailer : Header → Bool) where
  copy-append :
      (ms : List Member) (tail : List (Result Error Member)) (l : Log)
      → All (IsWhole is_trailer) ms
      → copy is_trailer (map ok ms ++ tail) l
        ≡ copy is_trailer tail (l ++ pieces (select is_kept ms))
  unfolding copy_members pieces
  copy-append [] tail l h = rw (append-nil l) refl
  copy-append (m ∷ ms) tail l (w, h) = elim (Bool-cases (is_dir m.header.file_type)) [
    | inl t ↦ elim (Bool-cases (m.header.name =t codes ".")) [
      | inl d ↦ rw (w.0, t, d) (copy-append ms tail l h)
      | inr d ↦
          rw (w.0, t, d)
            (copy-append ms tail (l ++ header m.header ∷ []) h
              ∙ ap (copy is_trailer tail) (
                  append_assoc l (header m.header ∷ []) (pieces (select is_kept ms))
                  ∙ ap (λ p. l ++ (p ++ pieces (select is_kept ms))) (sym (pieces_of_dir m t))))
    ]
    | inr t ↦
        rw (w.0, t)
          (simp w.1 (
            copy-append ms tail ((l ++ header m.header ∷ []) ++ content m.content ∷ []) h
            ∙ ap (copy is_trailer tail) (
                append_assoc (l ++ header m.header ∷ []) (content m.content ∷ [])
                  (pieces (select is_kept ms))
                ∙ append_assoc l (header m.header ∷ [])
                    (content m.content ∷ pieces (select is_kept ms))
                ∙ ap (λ p. l ++ (p ++ pieces (select is_kept ms))) (sym (pieces_of_file m t)))))
  ]

  -- To a writer that takes every write, members that can be read to their ends are copied in their
  -- order, but for the directory ".", each with its header and, if it is no directory, its content.
  -- With such a writer `Copy` ends without an error at the trailer, whatever follows it, and with the
  -- reader's error where there is none.
  pub copy_lem :
      (ms : List Member) (t : Member) (rest : List (Result Error Member)) (e : Error) (l : Log)
      → All (IsWhole is_trailer) ms
      → is_trailer t.header ≡ true
      → let out = l ++ pieces (select is_kept ms) in
        (copy is_trailer (map ok ms ++ ok t ∷ rest) l ≡ (out, none))
        × (copy is_trailer (map ok ms ++ err e ∷ rest) l ≡ (out, some e))
        × (copy is_trailer (map ok ms) l ≡ (out, some other))
  unfolding copy_members
  copy_lem ms t rest e l h q = (
    copy-append ms (ok t ∷ rest) l h ∙ rw q refl,
    copy-append ms (err e ∷ rest) l h,
    ap (λ x. copy is_trailer x l) (sym (append-nil (map ok ms))) ∙ copy-append ms [] l h,
  )
