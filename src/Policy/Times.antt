-- ===== src/Policy/Times.antt =====
-- The two clocks of src/policy.rs: when a snapshot is due, and how long until then.
use soal.Base.{ℕ, ◌+◌, ◌≤◌, ◌≡◌, ◌↔◌, true, some, arith}
use soal.Policy.{VaultPolicy, PolicyState, snapshot_due, secs_until_snapshot}

-- A snapshot is due exactly if secs_until_snapshot says 0 seconds.
pub snapshot_due_iff :
    (p : VaultPolicy) (s : PolicyState) (now : ℕ)
    → (snapshot_due p s now ≡ true) ↔ (secs_until_snapshot p s now ≡ some 0)
unfolding snapshot_due secs_until_snapshot
snapshot_due_iff p s now = ground arith

-- If the last snapshot is not after now and secs_until_snapshot says n seconds, then at any time
-- from now on a snapshot is due exactly if n seconds have passed.
pub secs_until_snapshot-first :
    (p : VaultPolicy) (s : PolicyState) (now n t : ℕ)
    → s.last_auto_snapshot_at ≤ now
    → secs_until_snapshot p s now ≡ some n
    → now ≤ t
    → (snapshot_due p s t ≡ true) ↔ (now + n ≤ t)
unfolding snapshot_due secs_until_snapshot
secs_until_snapshot-first p s now n t h e k = ground arith
