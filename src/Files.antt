-- ===== src/Files.antt =====
-- The file system as garuda-file-transfer/src/transfer.rs uses it, and the paths of `std::path`.
pub mod Slices
use garuda_codec.Base.{
  ℕ, zero, suc, ◌+◌, ◌-◌, ◌^◌, ◌&&◌, ◌||◌, ltb, leb, ◌==◌, if◌then◌else◌, not, Bool, true, false,
  ◌≡◌, refl, ◌↔◌, List, [], ◌∷◌, ◌++◌, length, take, drop, replicate, reverse, Option, none, some,
  Outcome, ok, err, arith,
}
use garuda_codec.Io.{ErrorKind, invalid_input}

-- A path is the list of its characters.
abbrev pub FilePath : Type 0
FilePath = List ℕ

abbrev pub same : List ℕ → List ℕ → Bool
same [] [] = true
same (x ∷ xs) (y ∷ ys) = x == y && same xs ys
same _ _ = false

pub same_iff : (xs ys : List ℕ) → (same xs ys ≡ true) ↔ (xs ≡ ys)
same_iff [] [] = (λ h. refl, λ h. refl)
same_iff [] (y ∷ ys) = (λ h. cc, λ h. cc)
same_iff (x ∷ xs) [] = (λ h. cc, λ h. cc)
same_iff (x ∷ xs) (y ∷ ys) = ground (arith, same_iff xs ys)

-- The files that exist, each under a number; several paths may name one file.
abbrev pub Contents : Type 0
Contents = ℕ → Option (List ℕ)

-- The file system beneath: the file that a path names, whether it exists or not, and the errors of
-- opening, of seeking and of writing, which may depend on what all files hold. A write that fails
-- may have written a first part of its bytes.
pub record Device : Type 0 where
  pub file_of : FilePath → ℕ
  pub open_error : Contents → FilePath → Option ErrorKind
  pub seek_error : Contents → FilePath → ℕ → Option ErrorKind
  pub write_error : Contents → FilePath → ℕ → List ℕ → Option (ℕ × ErrorKind)

pub record Disk : Type 0 where
  pub contents : Contents
  pub device : Device

-- What the file at a path holds.
abbrev pub content_at : FilePath → Disk → Option (List ℕ)
content_at path disk = disk.contents (disk.device.file_of path)

unfoldable pub store : FilePath → List ℕ → Disk → Disk
store path bytes disk = record disk {
  contents = λ i. if i == disk.device.file_of path then some bytes else disk.contents i;
}

-- `OpenOptions` with `create(true)` and `truncate(false)`: the file as it is, or an empty one.
abbrev pub or_empty : Option (List ℕ) → List ℕ
or_empty none = []
or_empty (some bytes) = bytes

unfoldable pub open_file : FilePath → Disk → Outcome ErrorKind (List ℕ) × Disk
unfolding store
open_file path disk = elim (disk.device.open_error disk.contents path) [
  | some kind ↦ (err kind, disk)
  | none ↦ (let bytes = or_empty (content_at path disk) in (ok bytes, store path bytes disk))
]

-- Bytes written at an offset; what is skipped behind the end of the file reads as zeros, and
-- nothing is skipped if nothing is written.
unfoldable pub write_at : ℕ → List ℕ → List ℕ → List ℕ
write_at offset [] bytes = bytes
write_at offset (b ∷ bs) bytes =
    take offset (bytes ++ replicate (offset - length bytes) 0)
    ++ ((b ∷ bs) ++ drop (offset + length (b ∷ bs)) bytes)

-- `write_all`, behind a seek to the offset.
unfoldable pub write_file :
    FilePath → ℕ → List ℕ → List ℕ → Disk → Outcome ErrorKind (Unit {0}) × Disk
unfolding store
write_file path offset payload bytes disk =
    elim (disk.device.write_error disk.contents path offset payload) [
      | some failure ↦
          (err failure.1, store path (write_at offset (take failure.0 payload) bytes) disk)
      | none ↦ (ok tt, store path (write_at offset payload bytes) disk)
    ]

-- `seek(SeekFrom::Start(offset))`, which refuses what no `i64` is, and `write_all`.
unfoldable pub seek_and_write :
    FilePath → ℕ → List ℕ → List ℕ → Disk → Outcome ErrorKind (Unit {0}) × Disk
unfolding write_file
seek_and_write path offset payload bytes disk =
    if ltb offset (2 ^ 63)
    then elim (disk.device.seek_error disk.contents path offset) [
      | some kind ↦ (err kind, disk)
      | none ↦ write_file path offset payload bytes disk
    ]
    else (err invalid_input, disk)

abbrev starts_with : ℕ → List ℕ → Bool
starts_with c [] = false
starts_with c (x ∷ xs) = x == c

-- `Path::join`, where 47 is the slash.
unfoldable pub join : FilePath → FilePath → FilePath
join [] name = name
join (c ∷ base) name =
    if starts_with 47 name
    then name
    else if starts_with 47 (reverse (c ∷ base))
    then (c ∷ base) ++ name
    else (c ∷ base) ++ (47 ∷ name)

-- What stands between the slashes.
pub parts : FilePath → List ℕ → List (List ℕ)
parts [] part = reverse part ∷ []
parts (c ∷ path) part =
    let rest = parts path (c ∷ part) in
    let next = reverse part ∷ parts path [] in if c == 47 then next else rest

-- The last part that is neither empty nor `.`.
pub last_part : Option (List ℕ) → List (List ℕ) → Option (List ℕ)
last_part last [] = last
last_part last (part ∷ rest) =
    last_part (if same part [] || same part (46 ∷ []) then last else some part) rest

-- `Path::file_name`
unfoldable pub file_name : FilePath → Option (List ℕ)
unfolding parts last_part
file_name path = elim (last_part none (parts path [])) [
  | none ↦ none
  | some part ↦ if same part (46 ∷ 46 ∷ []) then none else some part
]
