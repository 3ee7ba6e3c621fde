-- ===== src/Core/Platform.antt =====
-- What the code calls of the platform and does not implement: the URL parser, which gives nothing
-- where the source's call throws, the two text operations of the runtime's Unicode tables, and
-- dates.
use map_data_aggregation_enh.Base.{String, Bool, ◌||◌, not, Option, some, is_empty}
use map_data_aggregation_enh.Base.Numbers.{Num, nat}
use map_data_aggregation_enh.Core.Types.{Url}

pub record Platform : Type 0 where
  pub parse_url : String → Option Url
  pub trim : String → String
  pub normalize_nfc : String → String
  -- `new Date(text).valueOf()`, which is NaN where the text is no date, and `toISOString`
  pub parse_date : String → Num
  pub to_iso : Num → String

-- The four components that a resource URI may not have.
abbrev pub has_forbidden : Url → Bool
has_forbidden u =
    not (is_empty u.username)
    || not (is_empty u.password)
    || not (is_empty u.search)
    || not (is_empty u.hash)

-- A platform that takes every text for a URL with no such component: for runs on sample inputs.
abbrev pub plain_platform : Platform
plain_platform = record {
  parse_url = λ s. some (record { href = s; username = ""; password = ""; search = ""; hash = "" });
  trim = λ s. s;
  normalize_nfc = λ s. s;
  parse_date = λ s. nat 0;
  to_iso = λ n. "";
}
