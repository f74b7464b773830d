-- ===== src/Logging/Tags/Pop.antt =====
-- A pop of src/logging/log-tags.cc takes back a push.
use bctoolbox.Common.{
  ◌+◌, ◌-◌, ◌≤◌, ◌≡◌, refl, sym, ap, ◌∙◌, true, List, [], ◌∷◌, arith, inl, inr, ◌==◌, Bool-cases,
  eq→==, ne→==,
}
use bctoolbox.Logging.{Bytes, same_text}
use bctoolbox.Logging.Tags.{
  TagValue, TagStack, LogTags, Tag, before, at_type, pushed, popped, push_tag, pop_tag, with_top,
  get_tags, get_log_tags, with_tag, create_copy, paste,
}
use bctoolbox.Logging.Tags.Current.{
  tops, Reachable, start, by_push, by_pop, by_get, by_paste, get_log_tags-tops,
}

-- A count is never 0.
abbrev AreCounted : List TagValue → Type 0
AreCounted [] = Unit
AreCounted (top ∷ rest) = (1 ≤ top.count) × AreCounted rest

abbrev AreAllCounted : List TagStack → Type 0
AreAllCounted [] = Unit
AreAllCounted (t ∷ rest) = AreCounted t.stack × AreAllCounted rest

pushed-AreCounted : (value : Bytes) (s : List TagValue) → AreCounted s → AreCounted (pushed value s)
pushed-AreCounted value [] h = (omega arith, tt)
pushed-AreCounted value (top ∷ rest) h = elim (Bool-cases (same_text top.value value)) [
  | inl same ↦ rw same (omega (arith, h.0), h.1)
  | inr other ↦ rw other (omega arith, h)
]

popped-AreCounted : (s : List TagValue) → AreCounted s → AreCounted (popped s)
popped-AreCounted [] h = tt
popped-AreCounted (top ∷ rest) h = elim (Bool-cases (top.count == 1)) [
  | inl one ↦ rw one h.1
  | inr more ↦ rw more (ground (arith, h.0), h.1)
]

-- A push is taken back.
popped-pushed : (value : Bytes) (s : List TagValue) → AreCounted s → popped (pushed value s) ≡ s
popped-pushed value [] h = refl
popped-pushed value (top ∷ rest) h = elim (Bool-cases (same_text top.value value)) [
  | inl same ↦
      let back : top.count + 1 - 1 ≡ top.count = omega arith in
      rw (same, ne→== (top.count + 1) 1 (λ z. omega (arith, h.0)), back) refl
  | inr other ↦ rw other refl
]

at_type-AreAllCounted :
    (type : Bytes) (f : List TagValue → List TagValue) (ts : List TagStack)
    → ((s : List TagValue) → AreCounted s → AreCounted (f s))
    → AreAllCounted ts
    → AreAllCounted (at_type type f ts)
at_type-AreAllCounted type f [] keeps h = (keeps [] tt, tt)
at_type-AreAllCounted type f (t ∷ rest) keeps h = elim (Bool-cases (same_text t.tag_type type)) [
  | inl same ↦ rw same (keeps t.stack h.0, h.1)
  | inr other ↦ elim (Bool-cases (before type t.tag_type)) [
    | inl here ↦ rw (other, here) (keeps [] tt, h)
    | inr later ↦ rw (other, later) (h.0, at_type-AreAllCounted type f rest keeps h.1)
  ]
]

push_tag-AreAllCounted :
    (type value : Bytes) (t : LogTags)
    → AreAllCounted t.tags
    → AreAllCounted (push_tag type value t).tags
unfolding push_tag
push_tag-AreAllCounted type value t h =
    at_type-AreAllCounted type (pushed value) t.tags (pushed-AreCounted value) h

pop_tag-AreAllCounted :
    (type : Bytes) (t : LogTags) → AreAllCounted t.tags → AreAllCounted (pop_tag type t).tags
unfolding pop_tag
pop_tag-AreAllCounted type t h = at_type-AreAllCounted type popped t.tags popped-AreCounted h

get_tags-tags : (t : LogTags) → (get_tags t).1.tags ≡ t.tags
unfolding get_tags
get_tags-tags t = elim (Bool-cases t.tags_modified) [
  | inl again ↦ rw again refl
  | inr kept ↦ rw kept refl
]

paste-AreAllCounted :
    (ctx : List Tag) (t : LogTags) → AreAllCounted t.tags → AreAllCounted (paste ctx t).tags
unfolding paste
paste-AreAllCounted [] t h = h
paste-AreAllCounted (p ∷ ctx) t h =
    paste-AreAllCounted ctx (push_tag p.tag_type p.value t)
      (push_tag-AreAllCounted p.tag_type p.value t h)

Reachable-AreAllCounted : {t : LogTags} → Reachable t → AreAllCounted t.tags
Reachable-AreAllCounted start = tt
Reachable-AreAllCounted (by_push r type value) =
    push_tag-AreAllCounted type value _ (Reachable-AreAllCounted r)
Reachable-AreAllCounted (by_pop r type) = pop_tag-AreAllCounted type _ (Reachable-AreAllCounted r)
Reachable-AreAllCounted (by_get r) = rw (get_tags-tags _) (Reachable-AreAllCounted r)
Reachable-AreAllCounted (by_paste r ctx) = paste-AreAllCounted ctx _ (Reachable-AreAllCounted r)

same_text_self : (s : Bytes) → same_text s s ≡ true
same_text_self [] = refl
same_text_self (b ∷ s) = rw (eq→== b b refl, same_text_self s) refl

at_type-at_type :
    (type : Bytes) (f g : List TagValue → List TagValue) (ts : List TagStack)
    → at_type type f (at_type type g ts) ≡ at_type type (λ s. f (g s)) ts
at_type-at_type type f g [] = rw (same_text_self type) refl
at_type-at_type type f g (t ∷ rest) = elim (Bool-cases (same_text t.tag_type type)) [
  | inl same ↦ rw (same, same) refl
  | inr other ↦ elim (Bool-cases (before type t.tag_type)) [
    | inl here ↦ rw (other, here, same_text_self type) refl
    | inr later ↦ rw (other, later, other, later) (ap (λ l. t ∷ l) (at_type-at_type type f g rest))
  ]
]

-- A change that is none leaves what is on top.
at_type-unchanged :
    (type : Bytes) (f : List TagValue → List TagValue) (ts : List TagStack)
    → ((s : List TagValue) → AreCounted s → f s ≡ s)
    → AreAllCounted ts
    → (tops (at_type type f ts) ≡ tops ts) × (create_copy (at_type type f ts) ≡ create_copy ts)
unfolding create_copy
at_type-unchanged type f [] none h = rw (none [] tt) (refl, refl)
at_type-unchanged type f (t ∷ rest) none h = elim (Bool-cases (same_text t.tag_type type)) [
  | inl same ↦ rw (same, none t.stack h.0) (refl, refl)
  | inr other ↦ elim (Bool-cases (before type t.tag_type)) [
    | inl here ↦ rw (other, here, none [] tt) (refl, refl)
    | inr later ↦
        let (on_top, copy) = at_type-unchanged type f rest none h.1 in
        rw (other, later) (ap (with_top t.stack) on_top, ap (with_tag t.tag_type t.stack) copy)
  ]
]

pop_push-tags :
    (type value : Bytes) (t : LogTags)
    → (pop_tag type (push_tag type value t)).tags
      ≡ at_type type (λ s. popped (pushed value s)) t.tags
unfolding push_tag pop_tag
pop_push-tags type value t = at_type-at_type type popped (pushed value) t.tags

-- Whatever calls a thread made before, a pop behind a push of a value under the same type leaves the
-- tags as they were: `bctbx_get_log_tags` gives the same list, and a copy of the tags is the same.
pub pop_tag-push_tag :
    {t : LogTags}
    → Reachable t
    → (type value : Bytes)
    → let t' = pop_tag type (push_tag type value t) in
      ((get_log_tags t').0 ≡ (get_log_tags t).0) × (create_copy t'.tags ≡ create_copy t.tags)
pop_tag-push_tag {t} r type value =
    let (on_top, copy) =
      at_type-unchanged type (λ s. popped (pushed value s)) t.tags (popped-pushed value)
        (Reachable-AreAllCounted r) in
    let tags = pop_push-tags type value t in
    (
      (get_log_tags-tops (by_pop (by_push r type value) type)).1
          ∙ ap tops tags
          ∙ on_top
          ∙ sym (get_log_tags-tops r).1,
      ap create_copy tags ∙ copy,
    )
