-- ===== src/Registry/Headers.antt =====
-- The header parsers of modules/registry/public.go: If-None-Match and Accept-Language.
use Prim.Native.Char.{Char}
use appstore_gerege_nexus.Prelude.{String, Bool, ◌||◌, ◌==◌, any, if◌then◌else◌}
use appstore_gerege_nexus.Text.{trim_space, trim_prefix, split_on, before, to_lower}

-- One candidate of the list, against the tag.
abbrev pub candidate_matches : String → String → Bool
candidate_matches etag candidate =
    candidate == "*" || candidate == etag || trim_prefix candidate "W/" == etag

-- etagMatches
unfoldable pub etag_matches : (header etag : String) → Bool
unfolding split_on
etag_matches header etag =
    any (λ candidate. candidate_matches etag (trim_space candidate)) (split_on b',' header)

-- localeFrom: the query parameter, or the first language of Accept-Language without its region.
unfoldable pub locale_from : (Char → Char) → (query accept_language : String) → String
unfolding to_lower before trim_space
locale_from lower query accept_language =
    if query == ""
    then (if accept_language == ""
        then "en"
        else to_lower lower (trim_space (before b'-' (before b',' accept_language))))
    else query
