-- ===== src/Containers/Polling.antt =====
-- Code: frontend/src/hooks/useContainers.ts and frontend/src/components/ContainerList.tsx.
-- What the list shows after any number of requests.
use vps_dashboard.Common.{
  ℕ, ◌≡◌, refl, String, Bool, Option, List, [], ◌∷◌, ◌++◌, map, if◌then◌else◌, codes, decimal,
  is_empty,
}
use vps_dashboard.Common.Number.{Number}
use vps_dashboard.Types.{ContainerInfo, ContainerStats}
use vps_dashboard.Containers.{
  ContainersState, Outcome, refused, answered, thrown, fetch_containers, poll, error_banner,
  empty_state, rows, row, container_list,
}

-- The containers of the last body that came, if one came.
abbrev pub last_body : List ContainerInfo → List Outcome → List ContainerInfo
last_body cs [] = cs
last_body cs (refused status ∷ os) = last_body cs os
last_body cs (answered cs' ∷ os) = last_body cs' os
last_body cs (thrown message ∷ os) = last_body cs os

-- A failure keeps the containers: they are always those of the last body.
pub poll-containers :
    (os : List Outcome) (s : ContainersState) → (poll s os).containers ≡ last_body s.containers os
unfolding poll fetch_containers
poll-containers [] s = refl
poll-containers (refused status ∷ os) s = poll-containers os (fetch_containers s (refused status))
poll-containers (answered cs ∷ os) s = poll-containers os (fetch_containers s (answered cs))
poll-containers (thrown message ∷ os) s = poll-containers os (fetch_containers s (thrown message))

poll-append : (os ps : List Outcome) (s : ContainersState) → poll s (os ++ ps) ≡ poll (poll s os) ps
unfolding poll
poll-append [] ps s = refl
poll-append (o ∷ os) ps s = poll-append os ps (fetch_containers s o)

module _ (num : Number) where
  open num use {N}

  -- After any earlier requests, the last one decides what the list shows: the containers of its
  -- body, or the empty state for none, and for a status other than success its error in place of
  -- the containers.
  pub last_request :
      (s : ContainersState) (os : List Outcome) (stats : List (ContainerStats N))
      (pinned : List String) (selected : Option String) (show_pin : Bool)
      → ((cs : List ContainerInfo)
          → container_list num (poll s (os ++ answered cs ∷ [])) stats pinned selected show_pin ≡ (
              if is_empty cs
              then empty_state
              else rows (map (row num stats pinned selected show_pin) cs)))
        × ((status : ℕ)
            → container_list num (poll s (os ++ refused status ∷ [])) stats pinned selected show_pin
              ≡ error_banner (codes "HTTP " ++ decimal status))
  unfolding container_list poll fetch_containers
  last_request s os stats pinned selected show_pin = (
    (λ cs. rw (poll-append os (answered cs ∷ []) s) refl),
    (λ status. rw (poll-append os (refused status ∷ []) s) refl),
  )
