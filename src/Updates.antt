-- ===== src/Updates.antt =====
-- Self-update, master/src/update.rs: the comparison of versions, the choice of an asset, and `apply` up
-- to the swap of the binary. What GitHub answers, the digest of a download and the name of the platform
-- are arguments.
pub mod Versions
pub mod Verified
use text.Mathlib.Text.{◌==◌ as str_eq}
use Prim.Native.String.{String, len}
use honey.Prelude.{
  ℕ, zero, suc, Bool, true, false, not, ◌&&◌, ◌||◌, Option, none, some, List, [], ◌∷◌, ltb, ◌==◌,
  if◌then◌else◌, any, and_then, unwrap_or, map_option,
}
use honey.Prelude.Text.{contains, trim, trim_start_matches, split_once, ends_with}
use honey.Prelude.Split.{to_lower, split_on, lines, split_whitespace}
use honey.Prelude.Decimal.{parse_u64}

pub record ReleaseAsset : Type 0 where
  pub name : String
  pub url : String

pub record Release : Type 0 where
  pub tag : String
  pub assets : List ReleaseAsset

-- The three numbers, and whether it is a pre-release.
pub record Version : Type 0 where
  pub major : ℕ
  pub minor : ℕ
  pub patch : ℕ
  pub pre : Bool

abbrev number : String → ℕ
number part = unwrap_or (parse_u64 (trim part)) 0

-- The part at a position, 0 past the end.
abbrev part_at : ℕ → List String → ℕ
part_at i [] = 0
part_at zero (p ∷ ps) = number p
part_at (suc i) (p ∷ ps) = part_at i ps

abbrev read_parts : List String → Bool → Version
read_parts ps pre = record {
  major = part_at 0 ps;
  minor = part_at 1 ps;
  patch = part_at 2 ps;
  pre = pre;
}

abbrev core_of : String → Option (String × String) → String × Bool
core_of raw none = (raw, false)
core_of raw (some (core, suffix)) = (core, true)

unfoldable pub parse_raw : String → Version
unfolding split_once split_on parse_u64 trim
parse_raw raw = let core = core_of raw (split_once 45 raw) in read_parts (split_on 46 core.0) core.1

unfoldable pub parse_version : String → Version
unfolding trim trim_start_matches parse_raw
parse_version value = parse_raw (trim_start_matches 118 (trim value))

-- The triples in their order; a release beats the pre-release of the same triple.
abbrev pub is_newer_version : Version → Version → Bool
is_newer_version a b =
    if ltb a.major b.major
    then true
    else if ltb b.major a.major
    then false
    else if ltb a.minor b.minor
    then true
    else if ltb b.minor a.minor
    then false
    else if ltb a.patch b.patch
    then true
    else if ltb b.patch a.patch
    then false
    else a.pre && not b.pre

unfoldable pub is_newer : String → String → Bool
unfolding parse_version
is_newer current latest = is_newer_version (parse_version current) (parse_version latest)

abbrev find_asset : (ReleaseAsset → Bool) → List ReleaseAsset → Option ReleaseAsset
find_asset p [] = none
find_asset p (a ∷ rest) = let later = find_asset p rest in if p a then some a else later

unfoldable pub is_checksum_asset : String → Bool
unfolding contains to_lower
is_checksum_asset name = contains (to_lower name) "sha256" || contains (to_lower name) "checksum"

-- The other names of an architecture; one without is looked for as it is.
abbrev aliases_of : String → Option (List String)
aliases_of arch =
    if str_eq arch "x86_64"
    then some ("x86_64" ∷ "amd64" ∷ "x64" ∷ [])
    else if str_eq arch "aarch64"
    then some ("aarch64" ∷ "arm64" ∷ [])
    else none

abbrev fits : String → List String → ReleaseAsset → Bool
fits os aliases a =
    let name = to_lower a.name in
    not (is_checksum_asset name) && contains name os && any (contains name) aliases

abbrev pick_with : String → String → Option (List String) → List ReleaseAsset → Option ReleaseAsset
pick_with os arch none assets = find_asset (λ (a : ReleaseAsset). contains a.name arch) assets
pick_with os arch (some aliases) assets = find_asset (fits os aliases) assets

unfoldable pub pick_asset : String → String → List ReleaseAsset → Option ReleaseAsset
unfolding contains to_lower is_checksum_asset
pick_asset os arch assets = pick_with os arch (aliases_of arch) assets

abbrev file_of : List String → String
file_of [] = ""
file_of (f ∷ rest) = trim_start_matches 42 f

-- A line with no word ends the search: the `?` on its first word returns from the function.
abbrev hash_line : String → List String → Option String → Option String
hash_line asset [] later = none
hash_line asset (hash ∷ rest) later =
    if ends_with (file_of rest) asset && (len hash == 64) then some (to_lower hash) else later

unfoldable pub find_hash : String → List String → Option String
unfolding trim_start_matches ends_with to_lower split_whitespace
find_hash asset [] = none
find_hash asset (line ∷ rest) = hash_line asset (split_whitespace line) (find_hash asset rest)

unfoldable pub expected_hash : String → String → Option String
unfolding find_hash lines
expected_hash checksums asset = find_hash asset (lines checksums)

unfoldable pub first_checksums : List ReleaseAsset → Option ReleaseAsset
unfolding is_checksum_asset
first_checksums assets = find_asset (λ (a : ReleaseAsset). is_checksum_asset a.name) assets

-- What `apply` ends with: the version and the bytes that it installs, or why it does not.
pub data Applied (B : Type 0) : Type 0 where
  not_newer : Applied B
  no_asset : Applied B
  no_checksums : Applied B
  fetch_failed : Applied B
  no_entry : Applied B
  mismatch : Applied B
  installed : String → B → Applied B

module _ {B : Type 0} (current os arch : String) (fetch_text : String → Option String)
    (fetch_bytes : String → Option B) (sha256 : B → String) where
  unfoldable pub verify : String → String → B → Applied B
  verify tag expected bytes =
      if str_eq (sha256 bytes) expected then installed tag bytes else mismatch

  abbrev pub download : String → ReleaseAsset → String → Option B → Applied B
  download tag asset expected none = fetch_failed
  download tag asset expected (some bytes) = verify tag expected bytes

  abbrev pub with_hash : String → ReleaseAsset → Option String → Applied B
  with_hash tag asset none = no_entry
  with_hash tag asset (some expected) = download tag asset expected (fetch_bytes asset.url)

  abbrev pub with_listing : String → ReleaseAsset → Option String → Applied B
  with_listing tag asset none = fetch_failed
  with_listing tag asset (some body) = with_hash tag asset (expected_hash body asset.name)

  abbrev pub with_checksums : String → ReleaseAsset → Option ReleaseAsset → Applied B
  with_checksums tag asset none = no_checksums
  with_checksums tag asset (some sums) = with_listing tag asset (fetch_text sums.url)

  abbrev pub with_asset : Release → Option ReleaseAsset → Applied B
  with_asset release none = no_asset
  with_asset release (some asset) =
      with_checksums release.tag asset (first_checksums release.assets)

  unfoldable pub apply : Release → Applied B
  unfolding is_newer pick_asset verify expected_hash first_checksums
  apply release =
      if is_newer current release.tag
      then with_asset release (pick_asset os arch release.assets)
      else not_newer
