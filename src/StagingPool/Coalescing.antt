-- ===== src/StagingPool/Coalescing.antt =====
-- `stage_file_slices`: joining adjacent ranges moves the same bytes to the same places.
use mathlib.Core.List.{append_assoc, append-nil}
use native.Mathlib.Nat.{zero-add, add-zero, suc-add, add-suc}
use diffusers_dynamic_offloa.Prelude.{
  ℕ, zero, suc, ◌+◌, ◌≡◌, refl, sym, ◌∙◌, String, string_eq, true, List, [], ◌∷◌, ◌++◌, Bool-cases,
  inl, inr, arith, ==_iff,
}
use diffusers_dynamic_offloa.FileSlices.{FileSlice}
use diffusers_dynamic_offloa.StagingPool.{Run, Entry, add_run, extends}

-- One byte of a file, and its place in a slot.
pub record Byte : Type 0 where
  pub path : String
  pub from : ℕ
  pub slot : ℕ
  pub to : ℕ

-- `n` bytes from a place of a file to a place of a slot.
abbrev pub moves : String → ℕ → ℕ → ℕ → ℕ → List Byte
moves path from slot to zero = []
moves path from slot to (suc n) =
    record { path = path; from = from; slot = slot; to = to }
    ∷ moves path (suc from) slot (suc to) n

-- What a list of runs moves, newest run first, in the order of the reads.
abbrev pub moved : List Run → List Byte
moved [] = []
moved (run ∷ older) =
    moved older ++ moves run.path run.offset_bytes run.slot run.destination run.bytes

-- What the entries ask for, each at the place behind the one before.
abbrev pub requested : ℕ → ℕ → List Entry → List Byte
requested slot to [] = []
requested slot to ((source, slice) ∷ entries) =
    moves slice.path slice.offset_bytes slot to slice.size_bytes
    ++ requested slot (to + slice.size_bytes) entries

moves-append :
    (path : String) (from slot to m n : ℕ)
    → moves path from slot to (m + n)
      ≡ moves path from slot to m ++ moves path (from + m) slot (to + m) n
moves-append path from slot to zero n = simp (zero-add, add-zero)
moves-append path from slot to (suc m) n =
    simp (suc-add, add-suc, moves-append path (suc from) slot (suc to) m n)

-- The newest run reads into the slot.
abbrev pub InSlot : ℕ → List Run → Type 0
InSlot slot [] = Unit {0}
InSlot slot (run ∷ older) = run.slot ≡ slot

pub add_run-InSlot :
    (slot : ℕ) (slice : FileSlice) (offset size : ℕ) (runs : List Run)
    → InSlot slot runs
    → InSlot slot (add_run slot slice offset size runs)
unfolding add_run
add_run-InSlot slot slice offset size [] h = refl
add_run-InSlot slot slice offset size (run ∷ older) h =
    elim (Bool-cases (extends run slice offset)) [ inl e ↦ rw e h | inr e ↦ rw e refl ]

-- A joined run moves what the run and the slice move.
extends-moves :
    (run : Run) (slice : FileSlice) (slot offset size : ℕ)
    → run.slot ≡ slot
    → extends run slice offset ≡ true
    → moves run.path run.offset_bytes run.slot run.destination (run.bytes + size)
      ≡ moves run.path run.offset_bytes run.slot run.destination run.bytes
        ++ moves slice.path slice.offset_bytes slot offset size
extends-moves run slice slot offset size h e =
    let p : run.path ≡ slice.path = ground (arith, ==_iff run.path slice.path) in
    let q : run.offset_bytes + run.bytes ≡ slice.offset_bytes = ground arith in
    let r : run.destination + run.bytes ≡ offset = ground arith in
    moves-append run.path run.offset_bytes run.slot run.destination run.bytes size ∙ cc (p, q, r, h)

-- Whether a slice is joined or not, the bytes that are moved are the same.
pub add_run-moved :
    (slot : ℕ) (slice : FileSlice) (offset size : ℕ) (runs : List Run)
    → InSlot slot runs
    → moved (add_run slot slice offset size runs)
      ≡ moved runs ++ moves slice.path slice.offset_bytes slot offset size
unfolding add_run
add_run-moved slot slice offset size [] h = refl
add_run-moved slot slice offset size (run ∷ older) h =
    elim (Bool-cases (extends run slice offset)) [
      | inl e ↦
          rw (e, extends-moves run slice slot offset size h e)
            (sym (
              append_assoc (moved older)
                (moves run.path run.offset_bytes run.slot run.destination run.bytes)
                (moves slice.path slice.offset_bytes slot offset size)))
      | inr e ↦ rw e refl
    ]

pub moved-append : (runs older : List Run) → moved (runs ++ older) ≡ moved older ++ moved runs
moved-append [] older = sym (append-nil (moved older))
moved-append (run ∷ runs) older = rw (moved-append runs older) (
    append_assoc (moved older) (moved runs)
      (moves run.path run.offset_bytes run.slot run.destination run.bytes))
