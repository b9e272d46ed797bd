-- ===== src/Containers/Pins.antt =====
-- Code: frontend/src/components/ContainerList.tsx.
-- Pinning a container.
use vps_dashboard.Common.{
  ◌≡◌, refl, ◌∙◌, arith, String, true, false, not, ◌&&◌, List, [], ◌∷◌, ◌++◌, map, filter,
  any-append, includes, includes-filter, Distinct, Distinct-filter, Distinct-concat, eq_iff, ◌===◌,
  Bool-cases, List-cases, inl, inr,
}
use vps_dashboard.Types.{ContainerInfo, AppSettings}
use vps_dashboard.Home.{visible_containers}
use vps_dashboard.Home.Pinned.{visible_containers_lem}
use vps_dashboard.Settings.{merge}
use vps_dashboard.Containers.{toggle_pin, pin_patch}

-- The click on the star changes whether its container is pinned and nothing about the others,
-- and keeps the pinned ids distinct.
pub toggle_pin_lem :
    (pinned : List String) (id : String)
    → (includes (toggle_pin pinned id) id ≡ not (includes pinned id))
      × ((x : String) → (x === id) ≡ false → includes (toggle_pin pinned id) x ≡ includes pinned x)
      × (Distinct pinned → Distinct (toggle_pin pinned id))
unfolding toggle_pin
toggle_pin_lem pinned id = elim (Bool-cases (includes pinned id)) [
  | inl pin ↦ rw pin (
    removed id ∙ ground (arith, eq_iff id id),
    (λ x other. removed x ∙ ground (arith, other)),
    Distinct-filter (λ x. not (x === id)) pinned,
  )
  | inr free ↦ rw free (
    any-append (λ y. y === id) pinned (id ∷ []) ∙ ground (arith, eq_iff id id),
    (λ x other.
        any-append (λ y. y === x) pinned (id ∷ [])
        ∙ ground (arith, other, eq_iff x id, eq_iff id x)),
    Distinct-concat pinned id free,
  )
]
  where
    removed :
        (x : String)
        → includes (filter (λ y. not (y === id)) pinned) x ≡ (includes pinned x && not (x === id))
    removed x = includes-filter (λ y. not (y === id)) pinned x

-- Pinning a container and taking it back gives the list as it was.
pub toggle_pin-toggle_pin :
    (pinned : List String) (id : String)
    → includes pinned id ≡ false
    → toggle_pin (toggle_pin pinned id) id ≡ pinned
unfolding toggle_pin
toggle_pin-toggle_pin pinned id h =
    let twice : includes (pinned ++ id ∷ []) id ≡ true =
      any-append (λ y. y === id) pinned (id ∷ []) ∙ ground (arith, eq_iff id id) in
    rw (h, twice) (without pinned h)
  where
    without :
        (xs : List String)
        → includes xs id ≡ false
        → filter (λ x. not (x === id)) (xs ++ id ∷ []) ≡ xs
    without [] k = ground (arith, eq_iff id id)
    without (x ∷ xs) k = ground (arith, k, without xs)

-- Once a container of the server that is not pinned gets pinned by a click, the home page lists
-- it.
pub pin_shows :
    (settings : AppSettings) (containers : List ContainerInfo) (id : String)
    → includes settings.pinned_containers id ≡ false
    → includes (map (λ c. c.id) containers) id ≡ true
    → includes
        (map
          (λ c. c.id)
          (visible_containers
            (merge settings (pin_patch settings.pinned_containers id)).pinned_containers
            containers))
        id
      ≡ true
unfolding merge
pin_shows settings containers id free running =
    elim (List-cases (toggle_pin settings.pinned_containers id)) [
      | inl e ↦ absurd (cc (e, now))
      | inr (p, rest, e) ↦
          (visible_containers_lem (toggle_pin settings.pinned_containers id) containers).1 p rest e
            id
          ∙ ground (arith, running, now)
    ]
  where
    now : includes (toggle_pin settings.pinned_containers id) id ≡ true
    now = (toggle_pin_lem settings.pinned_containers id).0 ∙ rw free refl
