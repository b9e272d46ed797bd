-- ===== src/Containers/Tests.antt =====
-- Code: frontend/src/components/ContainerList.tsx.
-- The container list at concrete containers; percentages are whole.
use vps_dashboard.Common.{ℕ, ◌≡◌, refl, String, none, some, List, [], ◌∷◌, codes}
use vps_dashboard.Types.{ContainerInfo, ContainerStats}
use vps_dashboard.Containers.{Outcome, answered, thrown, find_stats}

abbrev web : ContainerInfo
web = record {
  id = "aa11";
  name = codes "web";
  status = codes "Up";
  state = codes "running";
  uptime = [];
  started_at = [];
  public_url = [];
}

abbrev usage : String → ContainerStats ℕ
usage id = record {
  id = id;
  name = codes "web";
  cpu_percent = 7;
  memory_usage = 1;
  memory_limit = 2;
  memory_percent = 50;
}

-- The statistics name a container by a shorter id.
found_by_beginning : find_stats (usage "bb" ∷ usage "aa" ∷ []) "aa11" ≡ some (usage "aa")
unfolding find_stats
found_by_beginning = refl

abbrev outcomes : List Outcome
outcomes = thrown none ∷ answered (web ∷ []) ∷ []
