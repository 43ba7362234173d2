-- ===== src/Replication/Noted.antt =====
-- src/replication.rs, `estimated_replicas` after `note_peer_has`.
use soal.Base.{
  ℕ, ◌+◌, ◌≡◌, ◌≢◌, refl, ap, ◌∙◌, Bool, true, false, not, ◌&&◌, Bytes, List, [], ◌++◌, map, Option,
  none, some, ok, arith, if◌then◌else◌,
}
use soal.Content.{ContentHash, codes}
use soal.Content.Hex.{to_hex}
use soal.Map.{lookup, IsSorted}
use soal.Set.{contains, is_listed, contains-add_all_eq, add_all}
use soal.Disk.{◌>>=◌, bind_at, pure, exists, quiet, call, attempt}
use soal.Disk.Triples.{Files}
use soal.Disk.Replace.{lookup-insert_other, lookup-remove_other}
use soal.Policy.Registry.Parsed.{
  saved, save-quiet, parse_file-none, parse_file-saved, exists-some, exists-none,
}
use soal.Policy.Registry.{Json, tmp_of, load_or, parse_file}
use soal.Vault.{Crates}
use soal.Store.{store_exists}
use soal.Vault.Objects.{has_tree_object, has_commit_object}
use soal.Vault.Transfer.{has_chunk}
use soal.Vault.Stored.{IsStored, have_file-IsApart, have_tmp-IsApart}
use soal.Replication.{
  PeerHave, have_file, read_have, load_have, note_peer_has, noted, estimated_replicas,
  local_replicas, count_peers, or_empty, or_default,
}
use soal.Replication.Estimates.{count_from, count-insert, one_if}

module _ (have_json : Json PeerHave) where
  load_of_read :
      (have : PeerHave) (m : Files)
      → read_have have_json (quiet m) ≡ (ok have, quiet m)
      → load_have have_json (quiet m) ≡ (ok have, quiet m)
  unfolding read_have load_have load_or or_default pure
  load_of_read have m e = go (lookup have_file m) refl
    where
      go :
          (o : Option Bytes)
          → lookup have_file m ≡ o
          → load_have have_json (quiet m) ≡ (ok have, quiet m)
      go none p =
          rw (parse_file-none have_json have_file m p)
            (rw (exists-none have_json have_file m p) at e)
      go (some text) p =
          let q : parse_file have_json have_file (quiet m) ≡ (ok have, quiet m) =
            rw (exists-some have_json have_file text m p) at e in
          rw q refl

  load_of_saved :
      (have : PeerHave) (m : Files)
      → have_json.from_str (have_json.to_string have) ≡ some have
      → load_have have_json (quiet (saved have_json have_file have m))
        ≡ (ok have, quiet (saved have_json have_file have m))
  unfolding load_have or_default
  load_of_saved have m e = rw (parse_file-saved have_json have_file have m e) refl

module _ (crates : Crates) (have_json : Json PeerHave) where
  open crates use {hex}

  stored_same :
      (have : PeerHave) (m : Files) (name : Bytes)
      → IsStored crates name
      → exists name (quiet (saved have_json have_file have m)) ≡ exists name (quiet m)
  unfolding exists lookup
  stored_same have m name i =
      let tmp : tmp_of have_file ≢ name = have_tmp-IsApart crates name i in
      let text = have_json.to_string have in
      let same : lookup name (saved have_json have_file have m) ≡ lookup name m =
        lookup-insert_other have_file name text _ (have_file-IsApart crates name i)
        ∙ lookup-remove_other (tmp_of have_file) name _ tmp
        ∙ lookup-insert_other (tmp_of have_file) name text _ tmp
        ∙ lookup-insert_other (tmp_of have_file) name [] m tmp in
      ap (λ o. elim o as (λ x. Bool) [ none ↦ false | some bytes ↦ true ]) same

  local_same :
      (have : PeerHave) (m : Files) (cid : ContentHash)
      → local_replicas crates have_json cid (quiet (saved have_json have_file have m))
        ≡ local_replicas crates have_json cid (quiet m)
  unfolding local_replicas has_chunk store_exists has_tree_object has_commit_object
      soal.Store.path_for soal.Vault.Objects.tree_path_bin soal.Vault.Objects.tree_path_json
      soal.Vault.Objects.commit_path_bin soal.Vault.Objects.commit_path_json
  local_same have m cid =
      rw
        (
          stored_same have m _ (IsStored.chunk cid),
          stored_same have m _ (IsStored.tree (to_hex hex cid ++ codes ".bin")),
          stored_same have m _ (IsStored.tree (to_hex hex cid ++ codes ".json")),
          stored_same have m _ (IsStored.commit (to_hex hex cid ++ codes ".bin")),
          stored_same have m _ (IsStored.commit (to_hex hex cid ++ codes ".json")),
        )
        refl

  pub estimate-quiet :
      (have : PeerHave) (m : Files) (cid : ContentHash)
      → load_have have_json (quiet m) ≡ (ok have, quiet m)
      → estimated_replicas crates have_json cid (quiet m) ≡ (
        ok (
            count_peers (to_hex hex cid) have.peers 0
            + local_replicas crates have_json cid (quiet m)),
        quiet m,
      )
  unfolding estimated_replicas ◌>>=◌ bind_at pure
  estimate-quiet have m cid e = rw e (
      ap (λ n. (ok n, quiet m))
        (count_from (to_hex hex cid) have.peers (local_replicas crates have_json cid (quiet m))))

  -- The peer was recorded to have what is of these digits.
  unfoldable pub is_recorded : Bytes → Bytes → PeerHave → Bool
  is_recorded peer digits have = contains digits (or_empty (lookup peer have.peers))

  -- What `note_peer_has` adds to the estimate of a hash.
  unfoldable pub gained : Bytes → List ContentHash → ContentHash → PeerHave → ℕ
  gained peer cids cid have = one_if (
      is_listed (to_hex hex cid) (map (to_hex hex) cids)
      && not (is_recorded peer (to_hex hex cid) have))

  count_noted :
      (now : ℕ) (peer : Bytes) (cids : List ContentHash) (cid : ContentHash) (have : PeerHave)
      → IsSorted have.peers
      → count_peers (to_hex hex cid) (noted now peer (map (to_hex hex) cids) have).peers 0
        ≡ count_peers (to_hex hex cid) have.peers 0 + gained peer cids cid have
  unfolding noted gained is_recorded
  count_noted now peer cids cid have h =
      let digits = to_hex hex cid in
      let listed = map (to_hex hex) cids in
      let old = or_empty (lookup peer have.peers) in
      bits (contains digits old) (is_listed digits listed) (contains digits (add_all listed old)) _
        _ (contains-add_all_eq digits listed old)
        (count-insert digits peer (add_all listed old) have.peers h)
    where
      bits :
          (o l n : Bool) (new have : ℕ)
          → n ≡ (if l then true else o)
          → new + one_if o ≡ have + one_if n
          → new ≡ have + one_if (l && not o)
      bits o l n new have e f = ground (arith, e, f)

  -- With no failing call, where the record of peers reads, lists the peers in order, and its new
  -- text reads back: note_peer_has returns, and the estimated replicas of a hash grow by one if the
  -- hash is among those noted and was not recorded for that peer, and otherwise stay as they are.
  pub estimated_replicas-note_peer_has :
      (now : ℕ) (peer : Bytes) (cids : List ContentHash) (have : PeerHave) (m : Files)
      → read_have have_json (quiet m) ≡ (ok have, quiet m)
      → IsSorted have.peers
      → have_json.from_str (have_json.to_string (noted now peer (map (to_hex hex) cids) have))
        ≡ some (noted now peer (map (to_hex hex) cids) have)
      → (cid : ContentHash)
      → (n : Files) × (k : ℕ) × (note_peer_has crates have_json now peer cids (quiet m)
          ≡ (ok tt, quiet n))
        × (estimated_replicas crates have_json cid (quiet m) ≡ (ok k, quiet m))
        × (estimated_replicas crates have_json cid (quiet n)
            ≡ (ok (k + gained peer cids cid have), quiet n))
  unfolding note_peer_has ◌>>=◌ bind_at call attempt
  estimated_replicas-note_peer_has now peer cids have m e s f cid =
      let have' = noted now peer (map (to_hex hex) cids) have in
      let n : Files = saved have_json have_file have' m in
      let k =
        count_peers (to_hex hex cid) have.peers 0 + local_replicas crates have_json cid (quiet m) in
      let grown : count_peers (to_hex hex cid) have'.peers 0
            + local_replicas crates have_json cid (quiet n)
          ≡ k + gained peer cids cid have =
        omega (arith, count_noted now peer cids cid have s, local_same have' m cid) in
      (
        n,
        k,
        rw e (save-quiet have_json have_file have' m),
        estimate-quiet have m cid (load_of_read have_json have m e),
        estimate-quiet have' n cid (load_of_saved have_json have' m f)
            ∙ ap (λ (x : ℕ). (ok x, quiet n)) grown,
      )
