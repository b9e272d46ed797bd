-- ===== src/Crosswatch/Guarded.antt =====
-- frontend/src/hooks/useCrosswatch.ts: the ref `tmdbEnriching` lets one batch run at a time.
use vps_dashboard.Common.{
  ℕ, ◌≤◌, ◌≡◌, refl, ap, sym, ◌∙◌, arith, Bool, true, false, not, ◌||◌, Option, none, some, List,
  [], ◌∷◌, is_empty, length, length-take, take, if◌then◌else◌,
}
use vps_dashboard.Crosswatch.{Cache, uncached, overlay, batch_size}
use vps_dashboard.Crosswatch.Effect.{
  Batch, EffectState, EffectEvent, rendered, ended, cancel, clean_up, effect, end_batch, on_event,
  on_events,
}

abbrev pub under_way : Option Batch → Bool
under_way none = false
under_way (some b) = true

abbrev pub is_current : Option Batch → Bool
is_current none = false
is_current (some b) = not b.cancelled

abbrev pub size : Option Batch → ℕ
size none = 0
size (some b) = length b.asked

module _ {Num : Type 0} where
  -- The ref is set exactly while a batch is under way, the clean-up at hand is that of a batch that
  -- is not cancelled, and a batch has at most ten movies.
  pub record IsGuarded (s : EffectState Num) : Type 0 where
    pub flagged : s.enriching ≡ under_way s.batch
    pub owned : s.cleans ≡ is_current s.batch
    pub small : size s.batch ≤ 10

  either :
      (b : Bool) (x y : EffectState Num)
      → (b ≡ true → IsGuarded x)
      → (b ≡ false → IsGuarded y)
      → IsGuarded (if b then x else y)
  either true x y f g = f refl
  either false x y f g = g refl

  clean_up-IsGuarded :
      (s : EffectState Num) → IsGuarded s → IsGuarded (clean_up s) × ((clean_up s).cleans ≡ false)
  unfolding clean_up
  clean_up-IsGuarded s g = split s.cleans refl
    where
      same :
          (b : Option Batch)
          → (under_way (cancel b) ≡ under_way b)
            × (is_current (cancel b) ≡ false)
            × (size (cancel b) ≡ size b)
      same none = (refl, refl, refl)
      same (some b) = (refl, refl, refl)

      split :
          (c : Bool)
          → s.cleans ≡ c
          → IsGuarded (if c then record s { batch = cancel s.batch; cleans = false } else s)
            × ((if c then record s { batch = cancel s.batch; cleans = false } else s).cleans
                ≡ false)
      split true e =
          let (way, current, length_) = same s.batch in
          (
            record {
              flagged = g.flagged ∙ sym way;
              owned = sym current;
              small = ground (arith, length_, g.small);
            },
            refl,
          )
      split false e = (g, e)

  -- Where no batch is under way, the clean-up that is left over does nothing.
  idle-IsGuarded :
      (s : EffectState Num)
      → s.batch ≡ none
      → s.enriching ≡ false
      → IsGuarded (clean_up s) × ((clean_up s).cleans ≡ false)
  unfolding clean_up
  idle-IsGuarded s e f = split s.cleans refl
    where
      split :
          (c : Bool)
          → s.cleans ≡ c
          → IsGuarded (if c then record s { batch = cancel s.batch; cleans = false } else s)
            × ((if c then record s { batch = cancel s.batch; cleans = false } else s).cleans
                ≡ false)
      split true k = (
        record {
          flagged = f ∙ ap (λ b. under_way (cancel b)) (sym e);
          owned = ap (λ b. is_current (cancel b)) (sym e);
          small = ground (arith, ap (λ b. size (cancel b)) e);
        },
        refl,
      )
      split false k = (
        record {
          flagged = f ∙ ap under_way (sym e);
          owned = k ∙ ap is_current (sym e);
          small = ground (arith, ap size e);
        },
        k,
      )

  effect-IsGuarded : (s : EffectState Num) → s.cleans ≡ false → IsGuarded s → IsGuarded (effect s)
  unfolding effect
  effect-IsGuarded s free g =
      either (s.loading || s.enriching || is_empty s.movies) s
        (if is_empty (uncached s.movies s.cache) then record s { enriching = false } else record s {
          enriching = true;
          batch =
              some
                (record { asked = take batch_size (uncached s.movies s.cache); cancelled = false });
          cleans = true;
        })
        (λ _. g)
        (λ open_.
          either (is_empty (uncached s.movies s.cache)) (record s { enriching = false })
            (record s {
              enriching = true;
              batch = some (record {
                asked = take batch_size (uncached s.movies s.cache);
                cancelled = false;
              });
              cleans = true;
            })
            (λ _. record {
              flagged = ground (arith, open_, g.flagged);
              owned = g.owned;
              small = g.small;
            })
            (λ _. record {
              flagged = refl;
              owned = refl;
              small = ground (arith, length-take 10 (uncached s.movies s.cache));
            }))

  end_batch-IsGuarded :
      (s : EffectState Num) (results : Cache Num) (b : Option Batch)
      → s.batch ≡ b
      → IsGuarded s
      → IsGuarded (end_batch s results b)
  unfolding end_batch
  end_batch-IsGuarded s results none e g = g
  end_batch-IsGuarded s results (some b) e g =
      let after : EffectState Num = record s {
        cache = overlay s.cache results;
        enriching = false;
        batch = none;
      } in
      let idle = idle-IsGuarded after refl refl in
      either b.cancelled (record s { enriching = false; batch = none }) (effect (clean_up after))
        (λ k. record {
          flagged = refl;
          owned = g.owned ∙ ap is_current e ∙ ap not k;
          small = omega arith;
        })
        (λ _. effect-IsGuarded (clean_up after) idle.1 idle.0)

  pub on_event-IsGuarded :
      (s : EffectState Num) (e : EffectEvent Num) → IsGuarded s → IsGuarded (on_event s e)
  unfolding on_event
  on_event-IsGuarded s (rendered loading movies) g =
      let before : EffectState Num = record s { loading = loading; movies = movies } in
      let cleaned =
        clean_up-IsGuarded before
          (record { flagged = g.flagged; owned = g.owned; small = g.small }) in
      effect-IsGuarded (clean_up before) cleaned.1 cleaned.0
  on_event-IsGuarded s (ended results) g = end_batch-IsGuarded s results s.batch refl g

  -- Whatever renders and ends of batches follow a state where this holds, the ref tmdbEnriching
  -- is set exactly while a batch is under way, the clean-up at hand is that of a batch that is
  -- not cancelled, and a batch has at most ten movies.
  pub on_events-IsGuarded :
      (es : List (EffectEvent Num)) (s : EffectState Num) → IsGuarded s → IsGuarded (on_events s es)
  on_events-IsGuarded [] s g = g
  on_events-IsGuarded (e ∷ es) s g =
      on_events-IsGuarded es (on_event s e) (on_event-IsGuarded s e g)
