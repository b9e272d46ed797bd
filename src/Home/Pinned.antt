-- ===== src/Home/Pinned.antt =====
-- Code: frontend/src/components/HomePage.tsx.
-- Which containers the home page lists.
use mathlib.Core.List.{Sublistᴰ}
use vps_dashboard.Common.{
  ◌≡◌, String, List, [], ◌∷◌, map, includes, length, length-take, filter-Sublistᴰ, min, ◌&&◌,
  includes-filter, map-filter, ap, ◌∙◌, take-Sublistᴰ,
}
use vps_dashboard.Types.{ContainerInfo}
use vps_dashboard.Home.{visible_containers}

-- The home page lists containers of the server in their order: with pins exactly the pinned ones
-- that run, without pins four of them, or all if there are fewer.
pub visible_containers_lem :
    (pinned : List String) (containers : List ContainerInfo)
    → Sublistᴰ (visible_containers pinned containers) containers
      × ((p : String) (rest : List String)
          → pinned ≡ p ∷ rest
          → (x : String)
          → includes (map (λ c. c.id) (visible_containers pinned containers)) x
            ≡ (includes (map (λ c. c.id) containers) x && includes pinned x))
      × (pinned ≡ [] → length (visible_containers pinned containers) ≡ min 4 (length containers))
unfolding visible_containers
visible_containers_lem [] containers =
    (take-Sublistᴰ 4 containers, λ p rest e. cc, λ _. length-take 4 containers)
visible_containers_lem (q ∷ pinned) containers = (
  filter-Sublistᴰ (λ c. includes (q ∷ pinned) c.id) containers,
  λ p rest e x.
      ap (λ l. includes l x)
        (map-filter (λ (c : ContainerInfo). c.id) (includes (q ∷ pinned)) containers)
      ∙ includes-filter (includes (q ∷ pinned)) (map (λ c. c.id) containers) x,
  λ e. cc,
)
