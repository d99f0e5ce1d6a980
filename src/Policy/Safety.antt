-- ===== src/Policy/Safety.antt =====
-- llmsvc/policy/common.py: what the methods of `Projection` keep, whichever policy calls them. An
-- action that frees memory spares the models in use, the pinned, the excluded and, as a stop, the
-- default model.
pub mod Steps
pub mod Releases
pub mod Budget
pub mod Order
use llm_service_manager.Prelude.{
  ℕ, zero, suc, String, ◌≡◌, refl, sym, ◌∙◌, subst, Bool, true, false, not, ◌&&◌, ◌||◌, ◌⊎◌, inl,
  inr, Option, none, some, List, [], ◌∷◌, ◌++◌, Memᴰ, arith, str_eq, eq_iff,
}
use llm_service_manager.Prelude.Int.{ℤ, pos, negsuc}
use llm_service_manager.Prelude.Tests.{or_else-none, when-none, not-false}
use llm_service_manager.Prelude.Lists.{any, All, All-map, any-false}
use llm_service_manager.Prelude.Text.{Dict, lookup, insert, values, All-insert}
use llm_service_manager.Prelude.Float.{Float, known}
use llm_service_manager.State.{StateSnapshot, ModelState, Activity, Action, Pin, Kind, is_resident}
use llm_service_manager.Policy.Projection.{
  Projection, sampled, is_pinned, in_flight_reason, flight_reason, min_idle_reason, protection,
}

module _ {N : Type 0} (s : StateSnapshot N) where
  -- A model as the snapshot has it: the projection changes only its state and its memory.
  abbrev pub Origin : ModelState N → Type 0
  Origin m =
      (o : ModelState N) × Memᴰ o s.models × (o.name ≡ m.name) × (o.is_default ≡ m.is_default)

module _ {N : Type 0} ⦃F : Float N⦄ (s : StateSnapshot N) (exclusions : Dict String) where
  -- No pin on the model is in force or of unknown end, no controller excludes it, and the activity
  -- on record says that it serves no request.
  pub record IsIdle (name : String) : Type 0 where
    pub unpinned :
        All
          (λ (p : Pin N).
            p.model ≡ name → (known p.until ≡ true) × (F.lt (sampled s) p.until ≡ false))
          s.pins
    pub eligible : lookup name exclusions ≡ none
    pub quiet :
        (row : Activity N) × Memᴰ row s.activity
        × (row.model ≡ name)
        × (row.in_flight ≡ some (pos 0))

-- `relocating` is set where the default model may be stopped, since another card can take it.
module _ {N : Type 0} ⦃F : Float N⦄ (s : StateSnapshot N) (exclusions : Dict String)
    (relocating : Bool) where
  -- The action frees memory of a model of the snapshot that is idle, and stops no default model.
  pub record IsSafe (a : Action) : Type 0 where
    pub releases : (a.kind ≡ Kind.sleep) ⊎ (a.kind ≡ Kind.stop)
    pub idle : IsIdle s exclusions a.model
    pub origin :
        (o : ModelState N) × Memᴰ o s.models
        × (o.name ≡ a.model)
        × (a.kind ≡ Kind.stop → relocating ≡ false → o.is_default ≡ false)

  pub record IsSound (p : Projection N) : Type 0 where
    pub same_snapshot : p.snapshot ≡ s
    pub same_exclusions : p.exclusions ≡ exclusions
    pub rows :
        (name : String) (row : Activity N)
        → lookup name p.activity ≡ some row
        → Memᴰ row s.activity × (row.model ≡ name)
    pub origins : All (Origin s) (values p.models)
    pub safe : All IsSafe p.actions

module _ {N : Type 0} ⦃F : Float N⦄ where
  unpinned_of :
      (s : StateSnapshot N) (name : String) (pin : Pin N)
      → (str_eq pin.model name && (not (known pin.until) || F.lt (sampled s) pin.until)) ≡ false
      → pin.model ≡ name
      → (known pin.until ≡ true) × (F.lt (sampled s) pin.until ≡ false)
  unpinned_of s name pin h e = ground (arith, eq_iff pin.model name)

  quiet_of :
      (found : Option (Activity N))
      → flight_reason found ≡ none
      → (row : Activity N) × (found ≡ some row) × (row.in_flight ≡ some (pos 0))
  quiet_of none h = cc
  quiet_of (some row) h = (row, refl, idle_row row.in_flight h)
    where
      idle_row : (n : Option ℤ) → in_flight_reason n ≡ none → n ≡ some (pos 0)
      idle_row none h = cc
      idle_row (some (pos zero)) h = refl
      idle_row (some (pos (suc n))) h = cc
      idle_row (some (negsuc n)) h = cc

  pub record Passed (p : Projection N) (m : ModelState N) (stop relocating : Bool) : Type 0 where
    pub resident : is_resident m.state ≡ true
    pub unpinned : is_pinned p.snapshot m.name ≡ false
    pub eligible : lookup m.name p.exclusions ≡ none
    pub quiet : flight_reason (lookup m.name p.activity) ≡ none
    pub spared : (stop && m.is_default && not relocating) ≡ false

  pub passed :
      (p : Projection N) (m : ModelState N) (stop : Bool) (min_idle : Option N) (relocating : Bool)
      → protection p m stop min_idle relocating ≡ none
      → Passed p m stop relocating
  unfolding protection
  passed p m stop min_idle relocating h =
      let (a, h₁) = or_else-none _ _ h in
      let (b, h₂) = or_else-none _ _ h₁ in
      let (c, h₃) = or_else-none _ _ h₂ in
      let (d, h₄) = or_else-none _ _ h₃ in
      let (e, h₅) = or_else-none _ _ h₄ in
      record {
        resident = not-false _ (when-none _ _ a);
        unpinned = when-none _ _ b;
        eligible = c;
        quiet = d;
        spared = when-none _ _ e;
      }

  pub idle_of :
      (s : StateSnapshot N) (exclusions : Dict String) (relocating : Bool) (p : Projection N)
      (m : ModelState N)
      → IsSound s exclusions relocating p
      → (stop moving : Bool) → Passed p m stop moving
      → IsIdle s exclusions m.name
  idle_of s exclusions relocating p m sound _ _ ok = record {
    unpinned = All-map _ _ s.pins (unpinned_of s m.name) (
        any-false _ s.pins
          (subst (λ t. is_pinned t m.name ≡ false) sound.same_snapshot ok.unpinned));
    eligible = subst (λ d. lookup m.name d ≡ none) sound.same_exclusions ok.eligible;
    quiet =
        let (row, found, zero_now) = quiet_of (lookup m.name p.activity) ok.quiet in
        let (there, named) = sound.rows m.name row found in (row, there, named, zero_now);
  }
