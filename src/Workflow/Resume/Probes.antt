-- ===== src/Workflow/Resume/Probes.antt =====
-- .opencode/plugins/uf-workflow/index.ts: the probes of uf_unleash_detect_resume: the markers of
-- spec.md, `isAncestorOrEqual`, `decodeQuotedPath`, `porcelainEntryPath`, `specArtifactsDirty`.
use complytime_providers.Prelude.{
  ℕ, suc, ◌+◌, ◌*◌, ◌-◌, ◌%◌, Text, txt, ◌==◌, Bool, true, false, not, ◌&&◌, ◌||◌, Option, none,
  some, List, [], ◌∷◌, ◌++◌, if◌then◌else◌, leb, ltb, nat_eq, any, drop, take, length, split,
  starts_with, ends_with, is_space, trim, ends_line, Result, ok, err, ◌>>=◌,
}
use complytime_providers.Workflow.Names.{is_cons_text}

-- `\[NEEDS CLARIFICATION`, and the ways in which the pattern goes on from there.
unfoldable pub is_marker_at : Text → Bool
unfolding starts_with txt is_space
is_marker_at s = starts_with s (txt "[NEEDS CLARIFICATION") && goes_on (drop 20 s)
  where
    goes_on : Text → Bool
    goes_on [] = false
    goes_on (c ∷ t) = nat_eq c b']' || ((nat_eq c b':' || is_space c) && any (λ d. nat_eq d b']') t)

-- The matches in a line; inside of one, up to its closing bracket.
unfoldable pub count_markers_from : Bool → Text → ℕ
unfolding is_marker_at
count_markers_from inside [] = 0
count_markers_from inside (c ∷ s) =
    let opens = not inside && is_marker_at (c ∷ s) in
    let rest = count_markers_from (opens || (inside && not (nat_eq c b']'))) s in
    if opens then suc rest else rest

unfoldable pub count_markers_among : List Text → ℕ
unfolding count_markers_from
count_markers_among [] = 0
count_markers_among (line ∷ lines) = count_markers_from false line + count_markers_among lines

unfoldable pub count_clarification_markers : Text → ℕ
unfolding count_markers_among split
count_clarification_markers spec_text = count_markers_among (split 10 spec_text)

unfoldable pub skip_spaces : Text → Text
unfolding is_space
skip_spaces [] = []
skip_spaces (c ∷ s) = if is_space c then skip_spaces s else c ∷ s

-- `\s*$`, at the end of a line
unfoldable pub ends_after_spaces : Text → Bool
unfolding is_space
ends_after_spaces [] = true
ends_after_spaces (c ∷ s) = ends_line c || (is_space c && ends_after_spaces s)

abbrev pub starts_spaced : Text → Bool
starts_spaced [] = false
starts_spaced (c ∷ s) = is_space c

-- `##\s+Clarifications\s*$`, from the start of a line
unfoldable pub is_section_at : Text → Bool
unfolding starts_with txt skip_spaces ends_after_spaces is_space
is_section_at s =
    let behind = skip_spaces (drop 2 s) in
    starts_with s (txt "##")
    && starts_spaced (drop 2 s)
    && starts_with behind (txt "Clarifications")
    && ends_after_spaces (drop 14 behind)

-- `CLARIFICATIONS_SECTION_PATTERN.test`: at the start of some line.
unfoldable pub has_section_from : Bool → Text → Bool
unfolding is_section_at
has_section_from at_start [] = false
has_section_from at_start (c ∷ s) =
    (at_start && is_section_at (c ∷ s)) || has_section_from (ends_line c) s

unfoldable pub has_clarifications : Text → Bool
unfolding has_section_from
has_clarifications spec_text = has_section_from true spec_text

-- What `git merge-base --is-ancestor` answers: exit status 0, exit status 1, or another error.
pub data Ancestry : Type 0 where
  yes no : Ancestry
  git_error : (message : Text) → Ancestry

abbrev pub ancestry_result : Ancestry → Result Bool
ancestry_result yes = ok true
ancestry_result no = ok false
ancestry_result (git_error message) = err message

unfoldable pub is_ancestor_or_equal : (Text → Text → Ancestry) → Text → Text → Result Bool
unfolding ◌==◌
is_ancestor_or_equal merge_base sha head =
    if sha == head then ok true else ancestry_result (merge_base sha head)

-- Where the decoder of a quoted path is: at a character, behind a backslash, or behind digits of a
-- byte in octal.
pub data Decoding : Type 0 where
  plain escaped : Decoding
  octal : (value : ℕ) → (digits : ℕ) → Decoding

abbrev is_octal : ℕ → Bool
is_octal c = leb b'0' c && leb c b'7'

module _ (decode_utf8 : List ℕ → Text) where
  -- `flushBytes`
  unfoldable pub flush_bytes : List ℕ → Text
  flush_bytes [] = []
  flush_bytes (b ∷ bytes) = decode_utf8 (b ∷ bytes)

  -- A character outside of an escape: what is put out, and where the decoder is then.
  unfoldable pub plain_step : List ℕ → ℕ → Text × Decoding × List ℕ
  unfolding flush_bytes
  plain_step bytes c =
      if nat_eq c b'\\' then ([], escaped, bytes) else (flush_bytes bytes ++ c ∷ [], plain, [])

  -- The character behind a backslash.
  unfoldable pub escaped_step : List ℕ → ℕ → Text × Decoding × List ℕ
  unfolding flush_bytes
  escaped_step bytes c = if is_octal c then ([], octal (c - b'0') 1, bytes) else (
    flush_bytes bytes
        ++ (if nat_eq c b't'
            then 9
            else if nat_eq c b'n'
            then 10
            else if nat_eq c b'r'
            then 13
            else c)
          ∷ [],
    plain,
    [],
  )

  unfoldable pub decode_step : Decoding → List ℕ → ℕ → Text × Decoding × List ℕ
  unfolding plain_step escaped_step
  decode_step plain bytes c = plain_step bytes c
  decode_step escaped bytes c = escaped_step bytes c
  decode_step (octal value digits) bytes c =
      if ltb digits 3 && is_octal c
      then ([], octal (8 * value + (c - b'0')) (suc digits), bytes)
      else plain_step (bytes ++ value % 256 ∷ []) c

  -- At the end; a lone backslash stands for itself.
  unfoldable pub decode_end : Decoding → List ℕ → Text
  unfolding flush_bytes
  decode_end plain bytes = flush_bytes bytes
  decode_end escaped bytes = flush_bytes bytes ++ b'\\' ∷ []
  decode_end (octal value digits) bytes = flush_bytes (bytes ++ value % 256 ∷ [])

  unfoldable pub decode_from : Decoding → List ℕ → Text → Text
  unfolding decode_step decode_end
  decode_from mode bytes [] = decode_end mode bytes
  decode_from mode bytes (c ∷ quoted) =
      let (out, next, left) = decode_step mode bytes c in out ++ decode_from next left quoted

  unfoldable pub decode_quoted_path : Text → Text
  unfolding decode_from
  decode_quoted_path quoted = decode_from plain [] quoted

  -- What stands behind the first ` -> `, or the whole text.
  unfoldable pub after_arrow : Text → Option Text
  unfolding starts_with txt
  after_arrow [] = none
  after_arrow (c ∷ s) =
      let later = after_arrow s in
      if starts_with (c ∷ s) (txt " -> ") then some (drop 4 (c ∷ s)) else later

  unfoldable pub unquoted : Text → Text
  unfolding starts_with ends_with decode_quoted_path
  unquoted rest =
      if starts_with rest (b'"' ∷ []) && ends_with rest (b'"' ∷ [])
      then decode_quoted_path (take (length rest - 2) (drop 1 rest))
      else rest

  unfoldable pub porcelain_entry_path : Text → Text
  unfolding after_arrow unquoted
  porcelain_entry_path line = elim (after_arrow (drop 3 line)) [
    | none ↦ unquoted (drop 3 line)
    | some renamed ↦ unquoted renamed
  ]

  -- Whether the status, as git's executor returns it, lists another path than tasks.md.
  unfoldable pub lists_other : Text → Text → Bool
  unfolding split trim porcelain_entry_path ◌==◌
  lists_other tasks_path status =
      any (λ line. is_cons_text (trim line) && not (porcelain_entry_path line == tasks_path))
        (split 10 status)

  unfoldable pub spec_artifacts_dirty : (Text → Result Text) → Text → Result Bool
  unfolding lists_other trim txt
  spec_artifacts_dirty git_status feature_dir = git_status feature_dir >>= λ status.
      ok (is_cons_text (trim status) && lists_other (feature_dir ++ txt "tasks.md") status)
