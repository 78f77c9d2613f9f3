-- ===== src/Plan/Profiles.antt =====
-- .opencode/plugins/review-dispatch/index.ts: `diffTier` and `profileDiff`.
pub mod Counts
use complytime_providers.Prelude.{
  ℕ, ◌+◌, Text, txt, Bool, false, ◌||◌, List, [], ◌∷◌, ◌++◌, ltb, if◌then◌else◌, includes, length,
  sort_by, text_leb, Result, ok, err, ◌>>=◌, Runtime, add, starts_with, contains,
}
use complytime_providers.Review.Model.{Tier, lightweight, standard, heavy}
use complytime_providers.Plan.Policy.{
  Category, security, cli_ux, documentation, plain, is_category, category_text, has_category,
}
use complytime_providers.Plan.Paths.{
  normalize_path, classify_path, component_for_path, has_segment, base_name,
}

pub record DiffProfile : Type 0 where
  pub lines : ℕ
  pub files : ℕ
  pub components : ℕ
  pub security_sensitive : Bool
  pub user_facing : Bool
  pub categories : List Category
  pub tier : Tier

pub record IssueProfile : Type 0 where
  pub text_bytes : ℕ
  pub comment_count : ℕ
  pub content_sha256 : Text
  pub matched_rules : List Text
  pub security_sensitive : Bool
  pub user_facing : Bool
  pub categories : List Category
  pub tier : Tier

pub data ChangeProfile : Type 0 where
  of_diff : DiffProfile → ChangeProfile
  of_issue : IssueProfile → ChangeProfile

abbrev pub profile_tier : ChangeProfile → Tier
profile_tier (of_diff p) = p.tier
profile_tier (of_issue p) = p.tier

abbrev pub profile_categories : ChangeProfile → List Category
profile_categories (of_diff p) = p.categories
profile_categories (of_issue p) = p.categories

abbrev pub is_security_sensitive : ChangeProfile → Bool
is_security_sensitive (of_diff p) = p.security_sensitive
is_security_sensitive (of_issue p) = p.security_sensitive

abbrev pub is_user_facing : ChangeProfile → Bool
is_user_facing (of_diff p) = p.user_facing
is_user_facing (of_issue p) = p.user_facing

pub record ChangedFile : Type 0 where
  pub path : Text
  pub additions : ℕ
  pub deletions : ℕ

unfoldable pub diff_tier : ℕ → ℕ → ℕ → Bool → Tier
diff_tier lines files components sensitive =
    if sensitive || ltb 300 lines || ltb 10 files
    then heavy
    else if ltb 50 lines || ltb 3 files || ltb 1 components
    then standard
    else lightweight

abbrev pub max_safe_integer : ℕ
max_safe_integer = 9007199254740991

-- The variables of the loop of `profileDiff`.
pub record Scan : Type 0 where
  pub seen_paths : List Text
  pub categories : List Category
  pub components : List Text
  pub lines : ℕ
  pub security_sensitive : Bool
  pub user_facing : Bool

abbrev pub empty_scan : Scan
empty_scan = record {
  seen_paths = [];
  categories = [];
  components = [];
  lines = 0;
  security_sensitive = false;
  user_facing = false;
}

abbrev pub add_category : List Category → Category → List Category
add_category cs c = if has_category cs c then cs else cs ++ c ∷ []

unfoldable pub path_is_sensitive : Runtime → Text → Bool
unfolding classify_path has_segment starts_with contains txt
path_is_sensitive js path =
    let lower = js.lower path in
    is_category (classify_path js path) security
    || starts_with lower (txt ".github/workflows/")
    || has_segment lower (txt "cmd" ∷ txt "internal" ∷ [])
    || contains lower (txt "secret")
    || contains lower (txt "token")
    || contains lower (txt "key")

unfoldable pub path_is_user_facing : Runtime → Text → Bool
unfolding classify_path base_name includes starts_with txt
path_is_user_facing js path =
    let lower = js.lower path in
    is_category (classify_path js path) cli_ux
    || is_category (classify_path js path) documentation
    || includes (txt "readme.md" ∷ txt "changelog.md" ∷ []) (base_name lower)
    || starts_with lower (txt ".opencode/agents/")
    || starts_with lower (txt ".opencode/commands/")

-- What a round adds, for a path that is normalised already.
abbrev pub scanned : Runtime → Scan → Text → ℕ → Scan
scanned js s path changed = record {
  seen_paths = s.seen_paths ++ path ∷ [];
  categories = add_category s.categories (classify_path js path);
  components = add s.components (component_for_path path);
  lines = s.lines + changed;
  security_sensitive = s.security_sensitive || path_is_sensitive js path;
  user_facing = s.user_facing || path_is_user_facing js path;
}

-- One round, with its checks.
unfoldable pub scan_path : Runtime → Scan → Text → ℕ → Result Scan
unfolding includes txt
scan_path js s path changed =
    if includes s.seen_paths path
    then err (txt "duplicate changed-file path " ++ js.stringify path)
    else if ltb max_safe_integer (s.lines + changed)
    then err (txt "changed line total exceeds the safe integer range")
    else ok (scanned js s path changed)

unfoldable pub scan_files : Runtime → Scan → List ChangedFile → Result Scan
unfolding scan_path normalize_path
scan_files js s [] = ok s
scan_files js s (f ∷ fs) = do
  path ← normalize_path js f.path
  s' ← scan_path js s path (f.additions + f.deletions)
  scan_files js s' fs

abbrev or_plain : List Category → List Category
or_plain [] = plain ∷ []
or_plain (c ∷ cs) = c ∷ cs

unfoldable pub sort_categories : List Category → List Category
unfolding sort_by text_leb category_text
sort_categories cs = sort_by (λ a b. text_leb (category_text a) (category_text b)) cs

unfoldable pub summarize : Scan → DiffProfile
unfolding sort_categories diff_tier
summarize s = record {
  lines = s.lines;
  files = length s.seen_paths;
  components = length s.components;
  security_sensitive = s.security_sensitive;
  user_facing = s.user_facing;
  categories = or_plain (sort_categories s.categories);
  tier = diff_tier s.lines (length s.seen_paths) (length s.components) s.security_sensitive;
}

unfoldable pub profile_diff : Runtime → List ChangedFile → Result DiffProfile
unfolding scan_files summarize
profile_diff js files = do s ← scan_files js empty_scan files; ok (summarize s)
