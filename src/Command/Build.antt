-- ===== src/Command/Build.antt =====
-- The version that `zupd run` shows (run.go): the variables set by the linker, and the texts.
use Prim.Native.String.{◌++◌ as str_append, len, slice}
use text.Mathlib.Text.{starts_with}
use ksdns.Prelude.{String, Bool, List, [], ◌∷◌, str_eq, if◌then◌else◌, ◌||◌, ◌&&◌, not}

-- What `-ldflags` and Go's `runtime` say of the build.
pub record BuildInfo : Type 0 where
  pub build_date : String
  pub git_tag : String
  pub git_nearest_tag : String
  pub git_short_stat : String
  pub git_files_modified : String
  pub git_commit : String
  pub goos : String
  pub goarch : String
  pub go_version : String

abbrev concat_text : List String → String
concat_text [] = ""
concat_text (t ∷ ts) = str_append t (concat_text ts)

abbrev trim_prefix : String → String → String
trim_prefix t p = if starts_with t p then slice t (len p) (len t) else t

-- The two variables that `setVersion` sets.
unfoldable pub dev_build : BuildInfo → Bool
dev_build b = str_eq b.git_tag "" || not (str_eq b.git_short_stat "")

unfoldable app_version : BuildInfo → String
app_version b =
    if str_eq b.git_nearest_tag "" && str_eq b.git_tag ""
    then "(untracked dev build)"
    else if dev_build b && not (str_eq b.git_nearest_tag "")
    then concat_text
        (trim_prefix b.git_nearest_tag "v" ∷ " (+" ∷ b.git_commit ∷ " " ∷ b.build_date ∷ ")" ∷ [])
    else if not (str_eq b.git_tag "")
    then trim_prefix b.git_tag "v"
    else "(untracked dev build)"

-- `caddy.AppName` and the version that it was given.
unfoldable pub version_string : String → String
version_string version = concat_text ("CoreDNS" ∷ "-" ∷ version ∷ "\n" ∷ [])

unfoldable pub release_string : BuildInfo → String
release_string b =
    concat_text (b.goos ∷ "/" ∷ b.goarch ∷ ", " ∷ b.go_version ∷ ", " ∷ b.git_commit ∷ "\n" ∷ [])

unfoldable pub show_version : BuildInfo → String → List String
show_version b version =
    version_string version
    ∷ release_string b
    ∷ (if dev_build b && not (str_eq b.git_short_stat "")
        then concat_text (b.git_short_stat ∷ "\n" ∷ b.git_files_modified ∷ "\n" ∷ []) ∷ []
        else [])
