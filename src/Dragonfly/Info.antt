-- ===== src/Dragonfly/Info.antt =====
-- The INFO answer of the server as pkg/dragonfly/utils.go reads it. `none` is a panic: a write to
-- a nil map. strconv.ParseFloat is a parameter.
pub mod Sections
use gochoreo.Common.{
  ℕ, ◌*◌, ◌%◌, ◌-◌, Bool, true, false, not, ◌&&◌, Option, none, some, List, [], ◌∷◌, ◌++◌,
  if◌then◌else◌, is_empty, ltb, Map, lookup, insert,
}
use gochoreo.Common.Int.{ℤ, pos, negsuc}
use gochoreo.Common.Word.{signed64, pattern64}
use gochoreo.Text.{Text, codes, has_prefix, trim_prefix, split, cut, text_eq}
use gochoreo.Text.Equality.{text_key}
use gochoreo.Text.Decimal.{atoi}
use gochoreo.Text.Space.{trim_space}

abbrev pub Sections : Type 0
Sections = Map Text (Map Text Text)

-- `result[currentSection][key] = value`
unfoldable pub store : Text → Text → Text → Sections → Option Sections
store section key value result = elim (lookup section result) [
  | none ↦ none
  | some m ↦ some (insert section (insert key value m) result)
]

-- A line `key:value` of a section.
unfoldable pub parse_pair : Text → Text → Sections → Option Sections
parse_pair section line result = elim (cut line b':') [
  | none ↦ some result
  | some (key, value) ↦
      if not (is_empty section)
      then store section (trim_space key) (trim_space value) result
      else some result
]

-- One round of the loop: the current section and the result.
unfoldable pub parse_round : Text → Text → Sections → Option (Text × Sections)
parse_round line section result =
    if is_empty line
    then some (section, result)
    else if has_prefix line (codes "# ")
    then some (
      trim_space (trim_prefix line (codes "# ")),
      insert (trim_space (trim_prefix line (codes "# "))) [] result,
    )
    else elim (parse_pair section line result) [
      | none ↦ none
      | some result' ↦ some (section, result')
    ]

unfoldable pub parse_rounds : List Text → Text → Sections → Option Sections
parse_rounds [] section result = some result
parse_rounds (line ∷ lines) section result = elim (parse_round (trim_space line) section result) [
  | none ↦ none
  | some (section', result') ↦ parse_rounds lines section' result'
]

unfoldable pub parse_dragonfly_info : Text → Option Sections
parse_dragonfly_info info = parse_rounds (split info (13 ∷ 10 ∷ [])) [] []

-- `m[key]`, the empty text for a missing key
abbrev pub text_at : Text → Map Text Text → Text
text_at key m = elim (lookup key m) [ none ↦ [] | some v ↦ v ]

-- A number of the map, or what it was: also if there is none, or if it cannot be read.
abbrev pub int_at : Text → ℤ → Map Text Text → ℤ
int_at key otherwise m = elim (lookup key m) [
  | none ↦ otherwise
  | some v ↦ elim (atoi v) [ none ↦ otherwise | some n ↦ n ]
]

-- `time.Duration(val) * time.Second`
abbrev pub in_seconds : ℤ → ℤ
in_seconds n = signed64 (pattern64 n * 1000000000)

module _ (F : Type 0) (zero_float : F) (parse_float : Text → Option F) where
  abbrev pub float_at : Text → Map Text Text → F
  float_at key m = elim (lookup key m) [
    | none ↦ zero_float
    | some v ↦ elim (parse_float v) [ none ↦ zero_float | some x ↦ x ]
  ]

  pub record MemoryInfo : Type 0 where
    pub used_memory : ℤ
    pub used_memory_peak : ℤ
    pub used_memory_rss : ℤ
    pub fragmentation_ratio : F

  -- What GetMemoryUsage reads from the section; no section is the error.
  abbrev pub memory_of : Option (Map Text Text) → Option MemoryInfo
  memory_of none = none
  memory_of (some m) = some (record {
    used_memory = int_at (codes "used_memory") (pos 0) m;
    used_memory_peak = int_at (codes "used_memory_peak") (pos 0) m;
    used_memory_rss = int_at (codes "used_memory_rss") (pos 0) m;
    fragmentation_ratio = float_at (codes "mem_fragmentation_ratio") m;
  })

  -- The inner `none` is the error "memory section not found in INFO output".
  unfoldable pub get_memory_usage : Text → Option (Option MemoryInfo)
  get_memory_usage info = elim (parse_dragonfly_info info) [
    | none ↦ none
    | some parsed ↦ some (memory_of (lookup (codes "Memory") parsed))
  ]

  pub record CommandStat : Type 0 where
    pub calls : ℤ
    pub usec_total : ℤ
    pub usec_per_call : F

  abbrev pub parsed_or : ℤ → Text → ℤ
  parsed_or otherwise value = elim (atoi value) [ none ↦ otherwise | some n ↦ n ]

  -- The switch on the key.
  unfoldable pub stat_field : Text → Text → CommandStat → CommandStat
  stat_field key value s =
      if text_eq key (codes "calls")
      then record s { calls = parsed_or s.calls value }
      else if text_eq key (codes "usec")
      then record s { usec_total = parsed_or s.usec_total value }
      else if text_eq key (codes "usec_per_call")
      then record s {
        usec_per_call = elim (parse_float value) [ none ↦ s.usec_per_call | some x ↦ x ];
      }
      else s

  unfoldable pub stat_loop : List Text → CommandStat → CommandStat
  stat_loop [] s = s
  stat_loop (part ∷ parts) s =
      stat_loop parts
        (elim (cut part b'=') [ none ↦ s | some (key, value) ↦ stat_field key value s ])

  unfoldable pub parse_command_stat : Text → CommandStat
  parse_command_stat stat_str =
      stat_loop (split stat_str (codes ","))
        (record { calls = pos 0; usec_total = pos 0; usec_per_call = zero_float })

  -- The loop over the command statistics.
  unfoldable pub command_stats : Map Text Text → Map Text CommandStat → Map Text CommandStat
  command_stats [] result = result
  command_stats ((cmd, stat_str) ∷ m) result = command_stats m (
      if has_prefix cmd (codes "cmdstat_")
      then insert (trim_prefix cmd (codes "cmdstat_")) (parse_command_stat stat_str) result
      else result)

  pub record ServerStats : Type 0 where
    pub version : Text
    pub mode : Text
    pub os : Text
    pub arch_bits : Text
    pub uptime : ℤ
    pub uptime_seconds : ℤ
    pub connected_clients : ℤ
    pub blocked_clients : ℤ
    pub command_stats_of : Map Text CommandStat
    pub sections : Sections

  -- A missing section gives what an empty one gives.
  abbrev pub section_of : Text → Sections → Map Text Text
  section_of name parsed = elim (lookup name parsed) [ none ↦ [] | some m ↦ m ]

  abbrev pub server_stats_of : Sections → ServerStats
  server_stats_of parsed =
      let server = section_of (codes "Server") parsed in
      let clients = section_of (codes "Clients") parsed in
      let uptime_seconds = int_at (codes "uptime_in_seconds") (pos 0) server in
      record {
        version = text_at (codes "dragonfly_version") server;
        mode = text_at (codes "dragonfly_mode") server;
        os = text_at (codes "os") server;
        arch_bits = text_at (codes "arch_bits") server;
        uptime = in_seconds uptime_seconds;
        uptime_seconds = uptime_seconds;
        connected_clients = int_at (codes "connected_clients") (pos 0) clients;
        blocked_clients = int_at (codes "blocked_clients") (pos 0) clients;
        command_stats_of = command_stats (section_of (codes "Commandstats") parsed) [];
        sections = parsed;
      }

  unfoldable pub get_server_stats : Text → Option ServerStats
  get_server_stats info = elim (parse_dragonfly_info info) [
    | none ↦ none
    | some parsed ↦ some (server_stats_of parsed)
  ]
