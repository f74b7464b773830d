-- ===== src/Logging/Tags/Current.antt =====
-- What the tags of src/logging/log-tags.cc are: the list that is kept is that of the values on top.
use bctoolbox.Common.{◌≡◌, refl, sym, ap, ◌∙◌, true, false, List, [], ◌∷◌, inl, inr, Bool-cases}
use bctoolbox.Logging.{Bytes, same_text}
use bctoolbox.Logging.Tags.{
  TagValue, TagStack, LogTags, Tag, new_tags, before, at_type, stack_of, popped, is_last, push_tag,
  pop_tag, with_top, gather, backwards, get_tags, get_log_tags, paste,
}

-- The values on top of the stacks, in the order of the types, in front of others.
abbrev tops_before : List TagStack → List Bytes → List Bytes
tops_before [] others = others
tops_before (t ∷ rest) others = with_top t.stack (tops_before rest others)

abbrev pub tops : List TagStack → List Bytes
tops ts = tops_before ts []

gather-backwards :
    (found : List Bytes) (done ts : List TagStack)
    → gather found (backwards done ts) ≡ gather (tops_before ts found) done
gather-backwards found done [] = refl
gather-backwards found done (t ∷ rest) = gather-backwards found (t ∷ done) rest

with_top-popped :
    (s : List TagValue) (found : List Bytes)
    → is_last s ≡ false
    → with_top (popped s) found ≡ with_top s found
with_top-popped [] found h = refl
with_top-popped (top ∷ rest) found h = rw h refl

-- A pop that leaves a count leaves the values on top.
tops-popped :
    (type : Bytes) (ts : List TagStack)
    → is_last (stack_of type ts) ≡ false
    → tops (at_type type popped ts) ≡ tops ts
tops-popped type [] h = refl
tops-popped type (t ∷ rest) h = elim (Bool-cases (same_text t.tag_type type)) [
  | inl same ↦ rw same (with_top-popped t.stack (tops rest) (rw same at h))
  | inr other ↦ elim (Bool-cases (before type t.tag_type)) [
    | inl here ↦ rw (other, here) refl
    | inr later ↦
        rw (other, later) (ap (with_top t.stack) (tops-popped type rest (rw (other, later) at h)))
  ]
]

-- Unless it is to be made again, each list is that of the values on top.
pub record IsCurrent (t : LogTags) : Type 0 where
  pub listed : t.tags_modified ≡ false → t.current_tags ≡ tops t.tags
  pub c_listed : t.tags_modified ≡ false → t.current_tags_c_list ≡ tops t.tags

absurd_true : {A : Type 0} → true ≡ false → A
absurd_true h = cc

push_tag-IsCurrent : (type value : Bytes) (t : LogTags) → IsCurrent (push_tag type value t)
unfolding push_tag
push_tag-IsCurrent type value t = record {
  listed = λ h. absurd_true h;
  c_listed = λ h. absurd_true h;
}

pop_tag-IsCurrent : (type : Bytes) (t : LogTags) → IsCurrent t → IsCurrent (pop_tag type t)
unfolding pop_tag
pop_tag-IsCurrent type t current = elim (Bool-cases (is_last (stack_of type t.tags))) [
  | inl last ↦ record {
    listed = λ h. absurd_true (rw last at h);
    c_listed = λ h. absurd_true (rw last at h);
  }
  | inr more ↦
      let same = tops-popped type t.tags more in
      record {
        listed = λ h. current.listed (rw more at h) ∙ sym same;
        c_listed = λ h. current.c_listed (rw more at h) ∙ sym same;
      }
]

paste-IsCurrent : (ctx : List Tag) (t : LogTags) → IsCurrent t → IsCurrent (paste ctx t)
unfolding paste
paste-IsCurrent [] t current = current
paste-IsCurrent (p ∷ ctx) t current =
    paste-IsCurrent ctx (push_tag p.tag_type p.value t) (push_tag-IsCurrent p.tag_type p.value t)

get_tags-IsCurrent :
    (t : LogTags)
    → IsCurrent t
    → ((get_tags t).0 ≡ tops t.tags) × ((get_log_tags t).0 ≡ tops t.tags) × IsCurrent (get_tags t).1
unfolding get_tags get_log_tags
get_tags-IsCurrent t current =
    let found = gather-backwards [] [] t.tags in
    elim (Bool-cases t.tags_modified) [
      | inl modified ↦
          rw modified (found, found, record { listed = λ h. found; c_listed = λ h. found })
      | inr kept ↦ rw kept (
        current.listed kept,
        current.c_listed kept,
        record { listed = λ h. current.listed kept; c_listed = λ h. current.c_listed kept },
      )
    ]

-- The calls of a thread.
pub data Reachable : LogTags → Type 0 where
  start : Reachable new_tags
  by_push : {t : LogTags} → Reachable t → (type value : Bytes) → Reachable (push_tag type value t)
  by_pop : {t : LogTags} → Reachable t → (type : Bytes) → Reachable (pop_tag type t)
  by_get : {t : LogTags} → Reachable t → Reachable (get_tags t).1
  by_paste : {t : LogTags} → Reachable t → (ctx : List Tag) → Reachable (paste ctx t)

Reachable-IsCurrent : {t : LogTags} → Reachable t → IsCurrent t
Reachable-IsCurrent start = record { listed = λ h. refl; c_listed = λ h. refl }
Reachable-IsCurrent (by_push r type value) = push_tag-IsCurrent type value _
Reachable-IsCurrent (by_pop r type) = pop_tag-IsCurrent type _ (Reachable-IsCurrent r)
Reachable-IsCurrent (by_get r) = (get_tags-IsCurrent _ (Reachable-IsCurrent r)).2
Reachable-IsCurrent (by_paste r ctx) = paste-IsCurrent ctx _ (Reachable-IsCurrent r)

-- Whatever calls a thread made before, `getTags` and `bctbx_get_log_tags` give the values on top of
-- the stacks that are not empty, in the order of the types: a list that is kept is never an old one.
pub get_log_tags-tops :
    {t : LogTags}
    → Reachable t
    → ((get_tags t).0 ≡ tops t.tags) × ((get_log_tags t).0 ≡ tops t.tags)
get_log_tags-tops r =
    let current = get_tags-IsCurrent _ (Reachable-IsCurrent r) in (current.0, current.1)
