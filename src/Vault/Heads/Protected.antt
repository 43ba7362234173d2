-- ===== src/Vault/Heads/Protected.antt =====
-- src/policy.rs, `protected_commit_roots`: the commits that the files `HEAD`, `HEADS` and
-- `snapshots.json` name.
use mathlib.Core.List.{Memᴰ}
use mathlib.Core.List.Memᴰ
use soal.Base.{
  ◌≡◌, ◌↔◌, refl, sym, ◌∙◌, subst, ap, ◌⊎◌, inl, inr, true, List, [], ◌∷◌, Option, none, some,
  Result, ok, err, panic,
}
use soal.Content.{ContentHash}
use soal.Content.Hex.{from_hex}
use soal.Disk.{quiet}
use soal.Disk.Triples.{Files}
use soal.Disk.Quiet.{>>=-quiet, pure-eq}
use soal.Policy.Registry.{SnapshotEntry, SnapshotLog, load_snapshots}
use soal.Set.{
  Hashes, contains, add, add_all, elements, contains-nil, contains-add_cases, contains-add_self,
  contains-add_old, contains-add_all, contains-add_all_old, contains-add_all_cases, mem-elements,
  contains_of_mem,
}
use soal.Vault.{Crates}
use soal.Vault.Heads.{head, list_heads, add_head, snapshot_roots, protected_commit_roots}
use soal.Vault.Heads.Reading.{head-IsReading, list_heads-IsReading, load_snapshots-IsReading}

module _ (crates : Crates) where
  open crates use {hex}

  -- An entry of the registry names the hash.
  pub record IsNamed (entries : List SnapshotEntry) (h : ContentHash) : Type 0 where
    pub entry : SnapshotEntry
    pub listed : Memᴰ entry entries
    pub read : from_hex hex entry.hash ≡ ok h

  -- The hash that an entry adds.
  abbrev entry_root : Result ContentHash → Hashes → Hashes
  entry_root r roots = elim r [ ok h ↦ add h roots | _ ↦ roots ]

  entry_root-old :
      (r : Result ContentHash) (roots : Hashes) (h : ContentHash)
      → contains h roots ≡ true
      → contains h (entry_root r roots) ≡ true
  entry_root-old (ok g) roots h k = contains-add_old g h roots k
  entry_root-old (err e) roots h k = k
  entry_root-old panic roots h k = k

  entry_root-cases :
      (r : Result ContentHash) (roots : Hashes) (h : ContentHash)
      → contains h (entry_root r roots) ≡ true
      → (r ≡ ok h) ⊎ (contains h roots ≡ true)
  entry_root-cases (ok g) roots h k = elim (contains-add_cases g h roots k) [
    | inl e ↦ inl (ap ok (sym e))
    | inr old ↦ inr old
  ]
  entry_root-cases (err e) roots h k = inr k
  entry_root-cases panic roots h k = inr k

  snapshot_roots-old :
      (entries : List SnapshotEntry) (roots : Hashes) (h : ContentHash)
      → contains h roots ≡ true
      → contains h (snapshot_roots crates entries roots) ≡ true
  unfolding snapshot_roots
  snapshot_roots-old [] roots h k = k
  snapshot_roots-old (e ∷ entries) roots h k =
      snapshot_roots-old entries _ h (entry_root-old (from_hex hex e.hash) roots h k)

  snapshot_roots-IsNamed :
      (entries : List SnapshotEntry) (roots : Hashes) (h : ContentHash) (e : SnapshotEntry)
      → Memᴰ e entries
      → from_hex hex e.hash ≡ ok h
      → contains h (snapshot_roots crates entries roots) ≡ true
  unfolding snapshot_roots
  snapshot_roots-IsNamed [] roots h e k p = absurd (Memᴰ.not-nil k)
  snapshot_roots-IsNamed (f ∷ entries) roots h e k p = elim (Memᴰ.cases_cons k) [
    | inl same ↦ snapshot_roots-old entries _ h (
        subst (λ r. contains h (entry_root r roots) ≡ true)
          (sym p ∙ ap (λ (s : SnapshotEntry). from_hex hex s.hash) same)
          (contains-add_self h roots))
    | inr t ↦ snapshot_roots-IsNamed entries _ h e t p
  ]

  snapshot_roots-cases :
      (entries : List SnapshotEntry) (roots : Hashes) (h : ContentHash)
      → contains h (snapshot_roots crates entries roots) ≡ true
      → IsNamed entries h ⊎ (contains h roots ≡ true)
  unfolding snapshot_roots
  snapshot_roots-cases [] roots h k = inr k
  snapshot_roots-cases (e ∷ entries) roots h k = elim (snapshot_roots-cases entries _ h k) [
    | inl n ↦ inl (record { entry = n.entry; listed = Memᴰ.tail n.listed; read = n.read })
    | inr old ↦ elim (entry_root-cases (from_hex hex e.hash) roots h old) [
      | inl p ↦ inl (record { entry = e; listed = Memᴰ.head refl; read = p })
      | inr first ↦ inr first
    ]
  ]

  module _ (m : Files) where
    -- `HEAD`, `HEADS` or a registered snapshot names the hash.
    pub data IsProtected (h : ContentHash) : Type 0 where
      at_head : head crates (quiet m) ≡ (ok (some h), quiet m) → IsProtected h
      in_heads :
          (heads : Hashes)
          → list_heads crates (quiet m) ≡ (ok heads, quiet m)
          → contains h heads ≡ true
          → IsProtected h
      registered :
          (log : SnapshotLog)
          → load_snapshots crates.snapshots_json (quiet m) ≡ (ok log, quiet m)
          → IsNamed log.entries h
          → IsProtected h

    -- What protected_commit_roots lists is what the three files name.
    pub protected_commit_roots_iff :
        (roots : List ContentHash) (h : ContentHash)
        → protected_commit_roots crates (quiet m) ≡ (ok roots, quiet m)
        → Memᴰ h roots ↔ IsProtected h
    unfolding protected_commit_roots
    protected_commit_roots_iff roots h e =
        let (o, p, e1) = >>=-quiet (head crates) _ (head-IsReading crates) e in
        let (heads, q, e2) = >>=-quiet (list_heads crates) _ (list_heads-IsReading crates) e1 in
        let (log, s, e3) =
          >>=-quiet (load_snapshots crates.snapshots_json) _ (load_snapshots-IsReading crates) e2 in
        let same : elements (all_of o heads log) ≡ roots = (pure-eq e3).0 in
        (
          λ k. found o heads log p q s (contains_of_mem h _ (subst (Memᴰ h) (sym same) k)),
          λ k. subst (Memᴰ h) same (mem-elements h _ (there o heads log p q s k)),
        )
      where
        all_of : Option ContentHash → Hashes → SnapshotLog → Hashes
        all_of o heads log =
            snapshot_roots crates log.entries (add_all (elements heads) (add_head crates o []))

        first :
            (o : Option ContentHash)
            → head crates (quiet m) ≡ (ok o, quiet m)
            → contains h (add_head crates o []) ≡ true
            → IsProtected h
        first none p k = cc (contains-nil h, k)
        first (some g) p k = elim (contains-add_cases g h [] k) [
          | inl e ↦ at_head (subst (λ x. head crates (quiet m) ≡ (ok (some x), quiet m)) (sym e) p)
          | inr old ↦ cc (contains-nil h, old)
        ]

        found :
            (o : Option ContentHash) (heads : Hashes) (log : SnapshotLog)
            → head crates (quiet m) ≡ (ok o, quiet m)
            → list_heads crates (quiet m) ≡ (ok heads, quiet m)
            → load_snapshots crates.snapshots_json (quiet m) ≡ (ok log, quiet m)
            → contains h (all_of o heads log) ≡ true
            → IsProtected h
        found o heads log p q s k = elim (snapshot_roots-cases log.entries _ h k) [
          | inl n ↦ registered log s n
          | inr old ↦ elim (contains-add_all_cases h (elements heads) _ old) [
            | inl l ↦ in_heads heads q (contains_of_mem h heads l)
            | inr f ↦ first o p f
          ]
        ]

        there :
            (o : Option ContentHash) (heads : Hashes) (log : SnapshotLog)
            → head crates (quiet m) ≡ (ok o, quiet m)
            → list_heads crates (quiet m) ≡ (ok heads, quiet m)
            → load_snapshots crates.snapshots_json (quiet m) ≡ (ok log, quiet m)
            → IsProtected h
            → contains h (all_of o heads log) ≡ true
        there o heads log p q s (at_head e) =
            let is : o ≡ some h = cc (p, e) in
            snapshot_roots-old log.entries _ h (
              contains-add_all_old h (elements heads) _ (
                subst (λ x. contains h (add_head crates x []) ≡ true) (sym is)
                  (contains-add_self h [])))
        there o heads log p q s (in_heads hs e k) =
            let is : hs ≡ heads = cc (q, e) in
            snapshot_roots-old log.entries _ h (
              contains-add_all h (elements heads) _
                (mem-elements h heads (subst (λ x. contains h x ≡ true) is k)))
        there o heads log p q s (registered l e n) =
            let is : l ≡ log = cc (s, e) in
            snapshot_roots-IsNamed log.entries _ h n.entry
              (subst (λ (x : SnapshotLog). Memᴰ n.entry x.entries) is n.listed) n.read
