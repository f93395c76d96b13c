-- ===== src/Client.antt =====
-- web/src/lib/client: what the interface computes from the stored messages.
pub mod Search
pub mod Highlight
pub mod Hits
pub mod Format
pub mod Notify
pub mod AccountIds
pub mod Accounts
pub mod Days
pub mod Examples
use shatters.Common.{
  ℕ, Bool, true, false, not, ◌&&◌, ◌||◌, List, [], ◌∷◌, ◌++◌, Text, leb, ◌==◌, if◌then◌else◌,
}

-- The language's white space and ends of lines, for `trim` and `\s`.
unfoldable pub is_space : ℕ → Bool
is_space u =
    (leb 9 u && leb u 13)
    || u == 32
    || u == 160
    || u == 5760
    || (leb 8192 u && leb u 8202)
    || u == 8232
    || u == 8233
    || u == 8239
    || u == 8287
    || u == 12288
    || u == 65279

unfoldable pub trim_start : Text → Text
trim_start [] = []
trim_start (u ∷ us) = if is_space u then trim_start us else u ∷ us

-- White space that only white space follows is left out.
abbrev pub unless_blank : ℕ → Text → Text
unless_blank u [] = if is_space u then [] else u ∷ []
unless_blank u (v ∷ vs) = u ∷ v ∷ vs

unfoldable pub trim_end : Text → Text
trim_end [] = []
trim_end (u ∷ us) = unless_blank u (trim_end us)

unfoldable pub trim : Text → Text
trim text = trim_end (trim_start text)
