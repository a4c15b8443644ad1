-- ===== src/Logs.antt =====
-- The ring of recent log records, master/src/logbuf.rs, and the filter of its search in
-- master/src/api/mod.rs. What the tracing library visits of an event is an argument.
pub mod Recent
use text.Mathlib.Text.{◌==◌ as str_eq}
use Prim.Native.Char.{Char, code}
use Prim.Native.String.{String, ◌++◌, len, count}
use mathlib.Core.List.{reverse}
use honey.Prelude.{
  ℕ, suc, ◌+◌, Bool, true, false, not, ◌&&◌, ◌||◌, Option, none, some, List, [], ◌∷◌,
  ◌++◌ as append, ltb, min, max, ◌==◌, if◌then◌else◌, filter, take, drop, length, is_some_and,
  is_none_or, unwrap_or, map_option, and_then,
}
use honey.Prelude.Text.{contains, trim, is_empty, one_of, chars_all, is_ascii_digit}
use honey.Prelude.Split.{to_lower}
use honey.Api.{Check, require_not, ◌≫◌, ok}

abbrev pub capacity : ℕ
capacity = 500

pub record LogRecord : Type 0 where
  pub ts : ℕ
  pub level : String
  pub code : Option String
  pub target : String
  pub message : String
  pub fields : String

-- The oldest record drops off the front of a full ring.
unfoldable pub push : LogRecord → List LogRecord → List LogRecord
push r ring =
    if length ring == capacity then append (drop 1 ring) (r ∷ []) else append ring (r ∷ [])

abbrev searched_text : LogRecord → String
searched_text r =
    r.level ++ (" " ++ (unwrap_or r.code "" ++ (" " ++ (r.target ++ (" " ++ r.message)))))

unfoldable pub matches_filter : Option String → Option String → Option String → LogRecord → Bool
unfolding contains to_lower
matches_filter level code query r =
    is_none_or level (str_eq r.level)
    && is_none_or code (λ (c : String). is_some_and r.code (str_eq c))
    && is_none_or query (λ (q : String).
      contains (to_lower (searched_text r)) (to_lower q)
      || contains (to_lower r.fields) (to_lower q))

unfoldable pub search :
    ℕ → Option String → Option String → Option String → List LogRecord → List LogRecord
unfolding matches_filter
search limit level code query ring =
    take (min limit capacity) (filter (matches_filter level code query) (reverse ring))

-- What a visitor collects of an event: each field's name and its value as a text, which is quoted
-- where the field was recorded by its `Debug` form.
pub record Field : Type 0 where
  pub name : String
  pub value : String
  pub is_text : Bool

pub record Collector : Type 0 where
  pub message : String
  pub code : Option String
  pub extra : List String

unfoldable pub trim_quotes_start : String → String
trim_quotes_start String.[] = String.[]
trim_quotes_start (String.◌∷◌ c s) =
    let rest = trim_quotes_start s in if code c == 34 then rest else String.◌∷◌ c s

unfoldable pub trim_quotes_end : String → String
unfolding is_empty
trim_quotes_end String.[] = String.[]
trim_quotes_end (String.◌∷◌ c s) =
    let rest = trim_quotes_end s in
    if is_empty rest && (code c == 34) then String.[] else String.◌∷◌ c rest

-- `record_str` and `record_debug`
unfoldable pub visit : Field → Collector → Collector
unfolding trim_quotes_start trim_quotes_end
visit f c =
    let plain = if f.is_text then f.value else trim_quotes_start (trim_quotes_end f.value) in
    if str_eq f.name "message"
    then record c { message = f.value }
    else if str_eq f.name "code"
    then record c { code = some plain }
    else record c { extra = append c.extra ((f.name ++ ("=" ++ f.value)) ∷ []) }

unfoldable pub visit_all : List Field → Collector → Collector
unfolding visit
visit_all [] c = c
visit_all (f ∷ fs) c = visit_all fs (visit f c)

abbrev nothing : Collector
nothing = record { message = ""; code = none; extra = [] }

abbrev join_spaces : List String → String
join_spaces [] = ""
join_spaces (s ∷ []) = s
join_spaces (s ∷ t ∷ rest) = s ++ (" " ++ join_spaces (t ∷ rest))

abbrev flat : List (List String) → List String
flat [] = []
flat (s ∷ rest) = append s (flat rest)

-- `on_event`: an event of another crate is passed over. The spans' fields stand before the event's.
unfoldable pub on_event :
    ℕ → Bool → String → String → List (List String) → List Field → List LogRecord → List LogRecord
unfolding push visit_all to_lower
on_event now is_own level target spans fields ring =
    let c = visit_all fields nothing in
    let r : LogRecord = record {
      ts = now;
      level = to_lower level;
      code = c.code;
      target = target;
      message = c.message;
      fields = join_spaces (append (flat spans) c.extra);
    } in
    if is_own then push r ring else ring

pub record LogQuery : Type 0 where
  pub limit : Option ℕ
  pub level : Option String
  pub code : Option String
  pub query : Option String

-- `M` and four digits
unfoldable pub is_code : String → Bool
unfolding chars_all
is_code String.[] = false
is_code (String.◌∷◌ c s) = (code c == 77) && (count s == 4) && chars_all is_ascii_digit s

unfoldable pub validate_log_query : LogQuery → Check
unfolding one_of is_code trim
validate_log_query q =
    require_not
      (is_some_and q.level
        (λ (v : String). not (one_of v ("error" ∷ "warn" ∷ "info" ∷ "debug" ∷ "trace" ∷ []))))
      "unsupported log level"
    ≫ require_not (is_some_and q.code (λ (v : String). not (is_code (trim v))))
        "invalid log code filter"
    ≫ require_not (is_some_and q.query (λ (v : String). ltb 128 (len (trim v))))
        "log search is too long"
