-- ===== src/Tests/LogTags.antt =====
-- The theorems about src/logging/log-tags.cc for a thread that pushed three tags.
use bctoolbox.Common.{◌≡◌, [], ◌∷◌}
use bctoolbox.Logging.Tags.{
  LogTags, new_tags, push_tag, pop_tag, get_tags, get_log_tags, create_copy,
}
use bctoolbox.Logging.Tags.Current.{Reachable, start, by_push, by_get, get_log_tags-tops}
use bctoolbox.Logging.Tags.Pop.{pop_tag-push_tag}

-- "b", then "a", then "a" with another value; the list is asked for in between.
abbrev tagged : LogTags
tagged =
    push_tag (b'a' ∷ []) (b'z' ∷ [])
      (get_tags (push_tag (b'a' ∷ []) (b'x' ∷ []) (push_tag (b'b' ∷ []) (b'y' ∷ []) new_tags))).1

tagged-Reachable : Reachable tagged
tagged-Reachable =
    by_push (by_get (by_push (by_push start (b'b' ∷ []) (b'y' ∷ [])) (b'a' ∷ []) (b'x' ∷ [])))
      (b'a' ∷ []) (b'z' ∷ [])

get_log_tags-tops_example :
    ((get_tags tagged).0 ≡ (b'z' ∷ []) ∷ (b'y' ∷ []) ∷ [])
    × ((get_log_tags tagged).0 ≡ (b'z' ∷ []) ∷ (b'y' ∷ []) ∷ [])
unfolding push_tag get_tags
get_log_tags-tops_example = get_log_tags-tops tagged-Reachable

pop_tag-push_tag_example :
    let t' = pop_tag (b'a' ∷ []) (push_tag (b'a' ∷ []) (b'z' ∷ []) tagged) in
    ((get_log_tags t').0 ≡ (get_log_tags tagged).0)
    × (create_copy t'.tags ≡ create_copy tagged.tags)
pop_tag-push_tag_example = pop_tag-push_tag tagged-Reachable (b'a' ∷ []) (b'z' ∷ [])
