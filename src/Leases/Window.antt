-- ===== src/Leases/Window.antt =====
-- llmsvc/leases.py: the evidence by which `place` gives up on a model that fits on no card: samples of
-- published collector rounds, each newer than the one before, over the time of grace.
use llm_service_manager.Prelude.{
  ℕ, suc, ◌≤◌, ◌≡◌, refl, sym, ◌∙◌, subst, Bool, true, false, not, ◌&&◌, ◌||◌, Option, none, some,
  List, [], ◌∷◌, arith,
}
use mathlib.Core.Option.{some-injective}
use llm_service_manager.Prelude.Tests.{leb, ◌==◌, if_ind, if◌then◌else◌}
use llm_service_manager.Prelude.Float.{Float}

-- A published collector round: its number, the time of its source and its bounds on this process's
-- clock
pub record Sample (N : Type 0) : Type 0 where
  pub generation : ℕ
  pub sampled_at : N
  pub started : N
  pub finished : N

-- The variables of the loop
pub record Window (N : Type 0) : Type 0 where
  pub since : Option N
  pub last : Option (Sample N)
  pub samples : ℕ

abbrev pub closed : {N : Type 0} → Window N
closed = record { since = none; last = none; samples = 0 }

module _ {N : Type 0} ⦃F : Float N⦄ where
  abbrev pub sample_eq : Sample N → Sample N → Bool
  sample_eq a b =
      a.generation == b.generation
      && F.eq a.sampled_at b.sampled_at
      && F.eq a.started b.started
      && F.eq a.finished b.finished

  -- Some part of the sample is not newer.
  abbrev pub is_backward : (sample last : Sample N) → Bool
  is_backward sample last =
      leb sample.generation last.generation
      || F.le sample.sampled_at last.sampled_at
      || F.le sample.started last.started
      || F.le sample.finished last.finished

  abbrev pub goes_back : Sample N → Option (Sample N) → Bool
  goes_back sample none = false
  goes_back sample (some last) = is_backward sample last

  abbrev pub same_as : Sample N → Option (Sample N) → Bool
  same_as sample none = false
  same_as sample (some last) = sample_eq sample last

  abbrev pub opened : Window N → (now : N) → Sample N → Option N → Window N
  opened w now sample none = record { since = some now; last = some sample; samples = 1 }
  opened w now sample (some t) = record {
    since = some t;
    last = some sample;
    samples = suc w.samples;
  }

  -- What a sample makes of the window
  unfoldable pub advance : Window N → (now : N) → Option (Sample N) → Window N
  advance w now none = closed
  advance w now (some sample) =
      if same_as sample w.last
      then w
      else if goes_back sample w.last
      then record { since = none; last = some sample; samples = 0 }
      else opened w now sample w.since

  abbrev pub lasted : (grace now : N) → Window N → Sample N → Option N → Bool
  lasted grace now w sample none = false
  lasted grace now w sample (some t) =
      leb 2 w.samples && F.le grace (F.minus now t) && F.le (F.plus t grace) sample.finished

  -- Whether the loop gives up, which only a new sample can bring about
  unfoldable pub gives_up : (grace : N) → Window N → (now : N) → Option (Sample N) → Bool
  gives_up grace w now none = false
  gives_up grace w now (some sample) =
      not (same_as sample w.last)
      && lasted grace now (advance w now (some sample)) sample (advance w now (some sample)).since

  -- What a round of the loop meets: a plan that is hopeless, or another one
  unfoldable pub turn : Window N → (hopeless : Bool) → (now : N) → Option (Sample N) → Window N
  turn w hopeless now sample = if hopeless then advance w now sample else closed

-- What the rounds of the loop met so far, the latest first
pub record Round (N : Type 0) : Type 0 where
  pub hopeless : Bool
  pub now : N
  pub sample : Option (Sample N)

module _ {N : Type 0} ⦃F : Float N⦄ where
  -- The window after these rounds
  unfoldable pub window : List (Round N) → Window N
  window [] = closed
  window (r ∷ past) = turn (window past) r.hopeless r.now r.sample

  -- Uninterrupted hopeless rounds, with the time of the first one that counts, the last sample and the
  -- number of samples, each newer in every part than the one before
  pub data IsRun : List (Round N) → (since : N) → (last : Sample N) → (samples : ℕ) → Type 0 where
    first :
        (r : Round N) (past : List (Round N)) (x : Sample N)
        → r.hopeless ≡ true
        → r.sample ≡ some x
        → IsRun (r ∷ past) r.now x 1
    newer :
        (r : Round N) (past : List (Round N)) (t : N) (x y : Sample N) (n : ℕ)
        → IsRun past t x n
        → r.hopeless ≡ true
        → r.sample ≡ some y
        → is_backward y x ≡ false
        → IsRun (r ∷ past) t y (suc n)
    again :
        (r : Round N) (past : List (Round N)) (t : N) (x y : Sample N) (n : ℕ)
        → IsRun past t x n
        → r.hopeless ≡ true
        → r.sample ≡ some y
        → sample_eq y x ≡ true
        → IsRun (r ∷ past) t x n

  abbrev Explains : List (Round N) → Window N → Type 0
  Explains past w =
      (t : N) → w.since ≡ some t → (x : Sample N) × (w.last ≡ some x) × IsRun past t x w.samples

  closed-Explains : (past : List (Round N)) → Explains past closed
  closed-Explains past t e = absurd cc

  opened-Explains :
      (r : Round N) (past : List (Round N)) (w : Window N) (y : Sample N)
      → Explains past w
      → r.hopeless ≡ true
      → r.sample ≡ some y
      → goes_back y w.last ≡ false
      → (since : Option N) → w.since ≡ since
      → Explains (r ∷ past) (opened w r.now y since)
  opened-Explains r past w y h hopeless sample forward none s t e =
      let same : r.now ≡ t = some-injective _ _ e in
      (
        y,
        refl,
        subst (λ (u : N). IsRun (r ∷ past) u y 1) same (IsRun.first r past y hopeless sample),
      )
  opened-Explains r past w y h hopeless sample forward (some u) s t e =
      let same : u ≡ t = some-injective _ _ e in
      let (x, last, run) = h u s in
      let newer_than : is_backward y x ≡ false =
        subst (λ (l : Option (Sample N)). goes_back y l ≡ false) last forward in
      (
        y,
        refl,
        subst (λ (v : N). IsRun (r ∷ past) v y (suc w.samples)) same
            (IsRun.newer r past u x y w.samples run hopeless sample newer_than),
      )

  advance-Explains :
      (r : Round N) (past : List (Round N)) (w : Window N)
      → Explains past w
      → r.hopeless ≡ true
      → (found : Option (Sample N)) → r.sample ≡ found
      → Explains (r ∷ past) (advance w r.now found)
  unfolding advance
  advance-Explains r past w h hopeless none s = closed-Explains (r ∷ past)
  advance-Explains r past w h hopeless (some y) s =
      if_ind (Explains (r ∷ past)) (same_as y w.last)
        (λ same t e.
          let (x, last, run) = h t e in
          let equal : sample_eq y x ≡ true =
            subst (λ (l : Option (Sample N)). same_as y l ≡ true) last same in
          (x, last, IsRun.again r past t x y w.samples run hopeless s equal))
        (λ _.
          if_ind (Explains (r ∷ past)) (goes_back y w.last) (λ _ t e. absurd cc)
            (λ forward. opened-Explains r past w y h hopeless s forward w.since refl))

  window-Explains : (past : List (Round N)) → Explains past (window past)
  unfolding window turn
  window-Explains [] = closed-Explains []
  window-Explains (r ∷ past) =
      if_ind (Explains (r ∷ past)) r.hopeless
        (λ hopeless.
          advance-Explains r past (window past) (window-Explains past) hopeless r.sample refl)
        (λ _. closed-Explains (r ∷ past))

  -- What the loop has seen when it gives up
  pub record IsEvidence (grace now : N) (past : List (Round N)) : Type 0 where
    pub since : N
    pub last : Sample N
    pub samples : ℕ
    pub run : IsRun past since last samples
    pub several : 2 ≤ samples
    pub waited : F.le grace (F.minus now since) ≡ true
    pub observed : F.le (F.plus since grace) last.finished ≡ true

  opened-last :
      (w : Window N) (now : N) (y : Sample N) (since : Option N)
      → (opened w now y since).last ≡ some y
  opened-last w now y none = refl
  opened-last w now y (some t) = refl

  advance-last :
      (w : Window N) (now : N) (y : Sample N)
      → same_as y w.last ≡ false
      → (advance w now (some y)).last ≡ some y
  unfolding advance
  advance-last w now y new = rw new (
      if_ind (λ (v : Window N). v.last ≡ some y) (goes_back y w.last) (λ _. refl)
        (λ _. opened-last w now y w.since))

  lasted-IsEvidence :
      (grace : N) (r : Round N) (past : List (Round N)) (w : Window N) (y : Sample N)
      → Explains (r ∷ past) w
      → w.last ≡ some y
      → (since : Option N) → w.since ≡ since
      → lasted grace r.now w y since ≡ true
      → IsEvidence grace r.now (r ∷ past)
  lasted-IsEvidence grace r past w y h last none s e = absurd cc
  lasted-IsEvidence grace r past w y h last (some t) s e =
      let (x, last_x, run) = h t s in
      let same : x ≡ y = some-injective _ _ (sym last_x ∙ last) in
      record {
        since = t;
        last = y;
        samples = w.samples;
        run = subst (λ (z : Sample N). IsRun (r ∷ past) t z w.samples) same run;
        several = ground arith;
        waited = ground arith;
        observed = ground arith;
      }

  -- When a hopeless round gives up, then the rounds since some time were all hopeless, at least two
  -- samples were seen in them, each newer in every part than the one before, the time of grace has
  -- passed, and the last collector round ended after it.
  pub gives_up-IsEvidence :
      (grace : N) (r : Round N) (past : List (Round N))
      → r.hopeless ≡ true
      → gives_up grace (window past) r.now r.sample ≡ true
      → IsEvidence grace r.now (r ∷ past)
  unfolding gives_up
  gives_up-IsEvidence grace r past hopeless h = go r.sample refl h
    where
      go :
          (found : Option (Sample N))
          → r.sample ≡ found
          → gives_up grace (window past) r.now found ≡ true
          → IsEvidence grace r.now (r ∷ past)
      go none s e = absurd cc
      go (some y) s e =
          let w = advance (window past) r.now (some y) in
          lasted-IsEvidence grace r past w y
            (advance-Explains r past (window past) (window-Explains past) hopeless (some y) s)
            (advance-last (window past) r.now y (ground arith)) w.since refl (ground arith)
