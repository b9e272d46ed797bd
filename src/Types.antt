-- ===== src/Types.antt =====
-- frontend/src/types.ts. `Num` is the type of the numbers that are not integers; sizes, times, ids
-- and counts are native numbers. An optional or nullable field is an `Option`.
use vps_dashboard.Common.{ℕ, String, Bool, List, Option, Text}

pub record NetworkStats : Type 0 where
  pub bytes_sent_per_sec : ℕ
  pub bytes_recv_per_sec : ℕ
  pub total_bytes_sent : ℕ
  pub total_bytes_recv : ℕ

pub record DiskStats (Num : Type 0) : Type 0 where
  pub total : ℕ
  pub used : ℕ
  pub free : ℕ
  pub used_percent : Num

pub record HostMetrics (Num : Type 0) : Type 0 where
  pub timestamp : ℕ
  pub cpu_percent : Num
  pub memory_used : ℕ
  pub memory_total : ℕ
  pub memory_percent : Num
  pub disk : DiskStats Num
  pub network : NetworkStats

pub record ContainerStats (Num : Type 0) : Type 0 where
  pub id : String
  pub name : Text
  pub cpu_percent : Num
  pub memory_usage : ℕ
  pub memory_limit : ℕ
  pub memory_percent : Num

pub record ContainerInfo : Type 0 where
  pub id : String
  pub name : Text
  pub status : Text
  pub state : Text
  pub uptime : Text
  pub started_at : Text
  pub public_url : Text

pub record MetricsFrame (Num : Type 0) : Type 0 where
  pub type : String
  pub timestamp : ℕ
  pub host : HostMetrics Num
  pub containers : List (ContainerStats Num)

pub data TabId : Type 0 where
  home metrics containers logs settings : TabId

pub data ConnectionState : Type 0 where
  connecting connected disconnected : ConnectionState

pub record ThemeColors : Type 0 where
  pub bg : String
  pub surface : String
  pub border : String
  pub text : String
  pub text_dim : String
  pub accent : String
  pub ok : String
  pub warn : String
  pub danger : String
  pub muted : String

pub record ThemePreset : Type 0 where
  pub id : String
  pub name : String
  pub colors : ThemeColors

-- The literal type `1 | 2`.
pub data Span : Type 0 where
  one two : Span

pub record HomeWidgetLayout : Type 0 where
  pub id : String
  pub span : Span

pub record AppSettings : Type 0 where
  pub theme : String
  pub custom_colors : Option ThemeColors
  pub poll_interval_ms : ℕ
  pub home_widgets : List String
  pub home_layout : List HomeWidgetLayout
  pub pinned_containers : List String
  pub tmdb_api_key : String

pub record TraktIds : Type 0 where
  pub trakt : ℕ
  pub slug : String
  pub tmdb : ℕ
  pub imdb : String

pub record TraktMovie : Type 0 where
  pub title : String
  pub year : ℕ
  pub ids : TraktIds

pub record TraktWatchedMovie : Type 0 where
  pub plays : ℕ
  pub last_watched_at : String
  pub movie : TraktMovie

pub record TmdbMovieDetail (Num : Type 0) : Type 0 where
  pub tmdb_id : ℕ
  pub title : String
  pub poster_path : Option String
  pub backdrop_path : Option String
  pub release_date : Text
  pub vote_average : Num
  pub overview : String
  pub runtime : ℕ
  pub genres : List String
  pub tagline : String

pub record CrosswatchMovie (Num : Type 0) : Type 0 where
  pub tmdb_id : ℕ
  pub title : String
  pub year : Option ℕ  -- `none` is NaN
  pub poster_path : Option String
  pub vote_average : Num
  pub runtime : ℕ
  pub genres : List String
  pub watched : Bool
  pub watched_at : Option String
  pub plays : ℕ

-- '1m' | '1h' | '12h' | '24h'
pub data MetricsTimeRange : Type 0 where
  minute hour half_day day : MetricsTimeRange

pub record MetricsSnapshot (Num : Type 0) : Type 0 where
  pub timestamp : ℕ
  pub cpu : Num
  pub memory : Num
  pub disk : Num
  pub net_up : Num
  pub net_down : Num

pub record TraktAuthState : Type 0 where
  pub connected : Bool
  pub username : String
