-- ===== src/Health/Graded.antt =====
-- src/health.rs, `assess_vault`: the level of the report.
use soal.Base.{
  ℕ, ◌≡◌, refl, sym, ap, ◌∙◌, subst, Bool, true, false, not, ◌&&◌, ◌||◌, Bytes, List, [], ◌∷◌, ◌++◌,
  ltb, Option, none, some, ok, arith, if◌then◌else◌,
}
use soal.Disk.{Disk}
use soal.Disk.Returns.{Returns, >>=-Returns, >>=-Returns_with, pure-Returns}
use soal.Content.{ContentHash}
use soal.Policy.{VaultPolicy, PolicyState}
use soal.Policy.Registry.{Json}
use soal.Replication.{PinSet, PeerHave, ReplicationStatus}
use soal.Vault.{Crates, Vault, VaultConfig}
use soal.Health.{HealthLevel, healthy, warn, crit, worst}
use soal.Health.Assess.{
  HealthCheck, VaultHealth, Report, HeadFacts, pushed, flagged, flagged_if, check_replication,
  check_key, check_config, check_heads, check_overall, assess_head, assessed, assess_with,
  assess_vault,
}

abbrev pub is_crit : HealthLevel → Bool
is_crit crit = true
is_crit warn = false
is_crit healthy = false

-- The worst of a level and those of checks.
unfoldable pub worst_of : HealthLevel → List HealthCheck → HealthLevel
worst_of l [] = l
worst_of l (c ∷ cs) = worst_of (worst l c.level) cs

worst_of-append :
    (l : HealthLevel) (cs : List HealthCheck) (c : HealthCheck)
    → worst_of l (cs ++ c ∷ []) ≡ worst (worst_of l cs) c.level
unfolding worst_of
worst_of-append l [] c = refl
worst_of-append l (b ∷ cs) c = worst_of-append (worst l b.level) cs c

worst_healthy : (l : HealthLevel) → worst l healthy ≡ l
unfolding worst
worst_healthy healthy = refl
worst_healthy warn = refl
worst_healthy crit = refl

-- The level is the worst of the checks, and it is critical exactly if `b` says so.
record Graded (b : Bool) (r : Report) : Type 0 where
  level : r.level ≡ worst_of healthy r.checks
  critical : is_crit r.level ≡ b

pushed-Graded :
    (name message : Bytes) (b : Bool) (r : Report)
    → Graded b r
    → Graded b (pushed name healthy message r)
unfolding pushed
pushed-Graded name message b r g = record {
  level =
      g.level
      ∙ sym (worst_healthy (worst_of healthy r.checks))
      ∙ sym (
          worst_of-append healthy r.checks
            (record { name = name; level = healthy; message = message }));
  critical = g.critical;
}

flagged-Graded :
    (name message : Bytes) (l : HealthLevel) (b : Bool) (r : Report)
    → Graded b r
    → Graded (b || is_crit l) (flagged name l message r)
unfolding flagged pushed
flagged-Graded name message l b r g = record {
  level =
      ap (λ x. worst x l) g.level
      ∙ sym
          (worst_of-append healthy r.checks (record { name = name; level = l; message = message }));
  critical = crit_worst r.level l ∙ ap (λ x. x || is_crit l) g.critical;
}
  where
    crit_worst : (k l : HealthLevel) → is_crit (worst k l) ≡ (is_crit k || is_crit l)
    crit_worst k l = unfold worst in ground arith

flagged_if-Graded :
    (t : Bool) (name message : Bytes) (l : HealthLevel) (b : Bool) (r : Report)
    → Graded b r
    → Graded (b || (t && is_crit l)) (flagged_if t name l message r)
unfolding flagged_if
flagged_if-Graded true name message l b r g = flagged-Graded name message l b r g
flagged_if-Graded false name message l b r g = subst (λ x. Graded x r) (or_false b) g
  where
    or_false : (b : Bool) → b ≡ (b || false)
    or_false true = refl
    or_false false = refl

-- A check that is never critical.
flagged_if-warn :
    (t : Bool) (name message : Bytes) (b : Bool) (r : Report)
    → Graded b r
    → Graded b (flagged_if t name warn message r)
flagged_if-warn t name message b r g =
    subst (λ x. Graded x (flagged_if t name warn message r)) (ground arith)
      (flagged_if-Graded t name message warn b r g)

flagged_if-crit :
    (t : Bool) (name message : Bytes) (b : Bool) (r : Report)
    → Graded b r
    → Graded (b || t) (flagged_if t name crit message r)
flagged_if-crit t name message b r g =
    subst (λ x. Graded x (flagged_if t name crit message r)) (ground arith)
      (flagged_if-Graded t name message crit b r g)

if-Graded : (t b : Bool) (r s : Report) → Graded b r → Graded b s → Graded b (if t then r else s)
if-Graded true b r s g h = g
if-Graded false b r s g h = h

check_key-Graded :
    (config : VaultConfig) (b : Bool) (r : Report) → Graded b r → Graded b (check_key config r)
unfolding check_key
check_key-Graded config b r g =
    if-Graded (config.encryption_enabled && config.key_wrapped) b _ _ (pushed-Graded _ _ b r g)
      (if-Graded config.encryption_enabled b _ _ (pushed-Graded _ _ b r g) g)

check_overall-Graded : (b : Bool) (r : Report) → Graded b r → Graded b (check_overall r)
unfolding check_overall
check_overall-Graded b r g = if-Graded _ b _ _ (pushed-Graded _ _ b r g) g

check_replication-Graded :
    (repl : ReplicationStatus) (b : Bool) (r : Report)
    → Graded b r
    → Graded (b || ltb 0 repl.missing_local) (check_replication repl r)
unfolding check_replication
check_replication-Graded repl b r g =
    flagged_if-warn _ _ _ _ _ (flagged_if-crit (ltb 0 repl.missing_local) _ _ b r g)

-- No check yet.
empty-Graded : Graded false (record { level = healthy; checks = [] })
unfolding worst_of
empty-Graded = record { level = refl; critical = refl }

module _ (crates : Crates) where
  assess_head-Graded :
      (policy : VaultPolicy) (now : ℕ) (o : Option ContentHash)
      → Returns
          (λ facts. Graded (not facts.complete) facts.report)
          (assess_head crates policy now o)
  unfolding assess_head
  assess_head-Graded policy now none = pure-Returns _ (flagged-Graded _ _ warn false _ empty-Graded)
  assess_head-Graded policy now (some h) = >>=-Returns _ _ (λ c. >>=-Returns _ _ (λ complete.
      >>=-Returns _ _ (λ tree. >>=-Returns _ _ (λ stale. pure-Returns _ (
        flagged_if-warn stale _ _ _ _ (flagged_if-crit (not complete) _ _ false _ empty-Graded))))))

  -- The level is the worst of the checks, and critical for an incomplete head or a missing chunk only.
  abbrev pub IsGraded : Option VaultHealth → Type 0
  IsGraded none = Unit {0}
  IsGraded (some h) =
      (h.level ≡ worst_of healthy h.checks)
      × (is_crit h.level ≡ (not h.complete || ltb 0 h.replication.missing_local))

  assessed-Graded :
      (vault : Vault) (policy : VaultPolicy) (state : PolicyState) (now : ℕ) (facts : HeadFacts)
      (alts : ℕ) (repl : ReplicationStatus) (chunks : ℕ)
      → Graded (not facts.complete) facts.report
      → IsGraded (some (assessed crates vault policy state now facts alts repl chunks))
  unfolding assessed check_heads check_config
  assessed-Graded vault policy state now facts alts repl chunks g =
      let whole = check_overall-Graded _ _ (
        flagged_if-warn _ _ _ _ _ (
          flagged_if-warn _ _ _ _ _ (
            check_key-Graded vault.config _ _ (check_replication-Graded repl _ facts.report g)))) in
      (whole.level, whole.critical)

  assess_with-IsGraded :
      (vault : Vault) (policy : VaultPolicy) (state : PolicyState) (now : ℕ)
      (repl : Option ReplicationStatus)
      → Returns IsGraded (assess_with crates vault policy state now repl)
  unfolding assess_with
  assess_with-IsGraded vault policy state now none = pure-Returns none tt
  assess_with-IsGraded vault policy state now (some repl) = >>=-Returns _ _ (λ h.
      >>=-Returns_with (λ facts. Graded (not facts.complete) facts.report) _ _
        (assess_head-Graded policy now h)
        (λ facts g. >>=-Returns _ _ (λ heads.
          >>=-Returns _ _
            (λ chunks. pure-Returns _ (assessed-Graded vault policy state now facts _ repl _ g)))))

  -- For any sequence of failing calls: the level of a report that assess_vault returns is the worst
  -- of the levels of its checks, and it is critical exactly if the report has the head as
  -- incomplete or counts a live chunk as missing locally.
  pub assess_vault-IsGraded :
      (pins_json : Json PinSet) (have_json : Json PeerHave) (fuel : ℕ) (vault : Vault) (now : ℕ)
      (d d' : Disk) (h : VaultHealth)
      → assess_vault crates pins_json have_json fuel vault now d ≡ (ok (some h), d')
      → (h.level ≡ worst_of healthy h.checks)
        × (is_crit h.level ≡ (not h.complete || ltb 0 h.replication.missing_local))
  unfolding assess_vault
  assess_vault-IsGraded pins_json have_json fuel vault now d d' h e =
      (>>=-Returns {Q = IsGraded} _ _ (λ policy. >>=-Returns _ _ (λ state.
          >>=-Returns _ _ (λ repl. assess_with-IsGraded vault policy state now repl)))).holds
        d d' (some h) e
