-- ===== src/Vault/Heads.antt =====
-- src/vault.rs, `head`, `set_head`, `list_heads`, `record_head`, `set_head_public` and
-- `set_divergent_head`, and src/policy.rs, `protected_commit_roots`: the files `HEAD` and `HEADS`,
-- and the commits that are kept from deletion.
pub mod Reading
pub mod Found
pub mod Apart
pub mod Steady
pub mod Protected
use soal.Base.{
  ℕ, zero, suc, Bool, true, false, not, Bytes, List, [], ◌∷◌, ◌++◌, ◌==◌, if◌then◌else◌, Option,
  none, some, Result, ok, err, panic, reject,
}
use soal.Content.{ContentHash, codes}
use soal.Content.Text.{trim}
use soal.Content.Hex.{to_hex, from_hex}
use soal.Codec.Utf8.{is_utf8}
use soal.Commit.{Commit}
use soal.Disk.{Disk, Io, ◌>>=◌, ◌>>◌, pure, lift, exists, read_file, write_file, io_error}
use soal.Paths.{is_empty, split}
use soal.Policy.Registry.{SnapshotEntry, load_snapshots}
use soal.Set.{Hashes, add, elements}
use soal.Vault.{Crates}
use soal.Vault.Objects.{load_commit}

abbrev pub head_file : Bytes
head_file = codes "HEAD"

abbrev pub heads_file : Bytes
heads_file = codes "HEADS"

-- `fs::read_to_string(path)?`
unfoldable pub read_to_string : Bytes → Io Bytes
read_to_string name = do
  text ← read_file name
  lift (reject (not (is_utf8 text)) io_error)
  pure text

module _ (crates : Crates) where
  open crates use {hex}

  unfoldable pub set_head : ContentHash → Io (Unit {0})
  set_head commit_hash = write_file head_file (to_hex hex commit_hash)

  unfoldable pub read_head : Io (Option ContentHash)
  read_head = do
    hexstr ← read_to_string head_file
    h ← lift (from_hex hex (trim hexstr))
    pure (some h)

  unfoldable pub head : Io (Option ContentHash)
  head d = if not (exists head_file d) then (ok none, d) else read_head d

  -- One round of the loop over the lines.
  unfoldable pub head_line : Bytes → Hashes → Hashes
  head_line line heads =
      let line' = trim line in
      if is_empty line' then heads else elim (from_hex hex line') [ ok h ↦ add h heads | _ ↦ heads ]

  unfoldable pub head_lines : List Bytes → Hashes → Hashes
  head_lines [] heads = heads
  head_lines (line ∷ lines) heads = head_lines lines (head_line line heads)

  -- `text.lines()` but for the carriage returns, which `trim` takes off, and an empty last line.
  unfoldable pub read_heads : Io Hashes
  read_heads = do text ← read_to_string heads_file; pure (head_lines (split 10 text) [])

  unfoldable pub list_heads_file_only : Io Hashes
  list_heads_file_only d = if exists heads_file d then read_heads d else (ok [], d)

  abbrev pub add_head : Option ContentHash → Hashes → Hashes
  add_head none heads = heads
  add_head (some h) heads = add h heads

  unfoldable pub list_heads : Io Hashes
  list_heads = do heads ← list_heads_file_only; h ← head; pure (add_head h heads)

  -- The loop over `heads`, which pushes to `body`.
  unfoldable pub heads_body : Hashes → Bytes → Bytes
  heads_body [] body = body
  heads_body ((h, u) ∷ heads) body = heads_body heads (body ++ (to_hex hex h ++ 10 ∷ []))

  unfoldable pub write_heads : Hashes → Io (Unit {0})
  write_heads heads = write_file heads_file (heads_body heads [])

  unfoldable pub record_head : ContentHash → Io (Unit {0})
  record_head commit_hash = do heads ← list_heads; write_heads (add commit_hash heads)

  unfoldable pub set_head_public : ContentHash → Io (Unit {0})
  set_head_public commit_hash = do
    c ← load_commit crates commit_hash
    set_head commit_hash
    record_head commit_hash

  unfoldable pub set_head_if_none : ContentHash → Option ContentHash → Io (Unit {0})
  set_head_if_none commit_hash none = set_head commit_hash
  set_head_if_none commit_hash (some h) = pure tt

  unfoldable pub set_divergent_head : ContentHash → Io (Unit {0})
  set_divergent_head commit_hash = do
    c ← load_commit crates commit_hash
    record_head commit_hash
    h ← head
    set_head_if_none commit_hash h

  -- The loop over the snapshots.
  unfoldable pub snapshot_roots : List SnapshotEntry → Hashes → Hashes
  snapshot_roots [] roots = roots
  snapshot_roots (e ∷ entries) roots =
      snapshot_roots entries (elim (from_hex hex e.hash) [ ok h ↦ add h roots | _ ↦ roots ])

  -- Adding the heads one by one gives the union; `add_all` over the sorted elements.
  unfoldable pub protected_commit_roots : Io (List ContentHash)
  protected_commit_roots = do
    h ← head
    heads ← list_heads
    log ← load_snapshots crates.snapshots_json
    pure (elements (snapshot_roots log.entries (soal.Set.add_all (elements heads) (add_head h []))))
