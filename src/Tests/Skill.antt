-- ===== src/Tests/Skill.antt =====
-- Skill names and documents at concrete inputs.

use denju.Base.{◌≡◌, lit, ok, err, if◌then◌else◌, leb, ◌&&◌, length, all, split_at}
use denju.Core.Skill.{validate_skill_name, invalid_name, hyphen}
use native.Mathlib.Decide.{ℕ_discrete}
use denju.Base.{refl, true, false, ◌+◌, ◌==◌, text_discrete, any, last, drop, Bytes}
use denju.Core.Merge.{lines, cons_line}
use denju.Core.Skill.{split_frontmatter, is_marker, trim_line_end}
use denju.Core.Skill.Body.{is_closed, document, split_frontmatter-document}
use denju.Core.Skill.Words.{is_word, validate_skill_name-words}

validate_skill_name-words_example : validate_skill_name (lit "pdf-tools") ≡ (
    if leb (length (lit "pdf-tools")) 64 && all is_word (split_at hyphen (lit "pdf-tools"))
    then ok tt
    else err invalid_name)
validate_skill_name-words_example = validate_skill_name-words (lit "pdf-tools")

abbrev yaml : Bytes
yaml = lit "name: a\n"

abbrev body : Bytes
body = lit "# A\n---\n"

yaml-is_closed : is_closed yaml ≡ true
unfolding is_closed last
yaml-is_closed = refl

yaml_has_no_marker : any is_marker (lines yaml) ≡ false
unfolding lines cons_line any ◌==◌ text_discrete ℕ_discrete trim_line_end
yaml_has_no_marker = refl

split_frontmatter-document_example :
    (split_frontmatter (document yaml body) ≡ ok (yaml, 4 + length yaml + 4))
    × (drop (4 + length yaml + 4) (document yaml body) ≡ body)
split_frontmatter-document_example =
    split_frontmatter-document yaml body yaml-is_closed yaml_has_no_marker
