-- ===== src/Logging/Tags.antt =====
-- src/logging/log-tags.cc: the tags of a thread, kept by type as stacks of values, and the list of
-- the values on top, which is made when it is asked for. `std::map` is a list in the order of its
-- keys; a count stays below 2^31. What is logged is left out.
pub mod Current
pub mod Pop
use bctoolbox.Common.{ℕ, ◌+◌, ◌-◌, Bool, true, false, List, [], ◌∷◌, ltb, ◌==◌, if◌then◌else◌}
use bctoolbox.Logging.{Bytes, same_text}

-- `LogTags::TagValue`
pub record TagValue : Type 0 where
  pub value : Bytes
  pub count : ℕ

-- A type with its stack, the top first.
pub record TagStack : Type 0 where
  pub tag_type : Bytes
  pub stack : List TagValue

-- `LogTags`. The C list has the texts of the other one.
pub record LogTags : Type 0 where
  pub tags : List TagStack
  pub current_tags : List Bytes
  pub current_tags_c_list : List Bytes
  pub tags_modified : Bool

abbrev pub new_tags : LogTags
new_tags = record { tags = []; current_tags = []; current_tags_c_list = []; tags_modified = false }

-- `operator<` of strings
abbrev pub before : Bytes → Bytes → Bool
before s [] = false
before [] (b ∷ t) = true
before (a ∷ s) (b ∷ t) = if a == b then before s t else ltb a b

-- `mTags[type]`, an empty stack where there was none, changed by `f`.
abbrev pub at_type : Bytes → (List TagValue → List TagValue) → List TagStack → List TagStack
at_type type f [] = record { tag_type = type; stack = f [] } ∷ []
at_type type f (t ∷ rest) =
    if same_text t.tag_type type
    then record t { stack = f t.stack } ∷ rest
    else if before type t.tag_type
    then record { tag_type = type; stack = f [] } ∷ t ∷ rest
    else t ∷ at_type type f rest

abbrev pub stack_of : Bytes → List TagStack → List TagValue
stack_of type [] = []
stack_of type (t ∷ rest) =
    if same_text t.tag_type type
    then t.stack
    else if before type t.tag_type
    then []
    else stack_of type rest

abbrev pub pushed : Bytes → List TagValue → List TagValue
pushed value [] = record { value = value; count = 1 } ∷ []
pushed value (top ∷ rest) =
    if same_text top.value value
    then record top { count = top.count + 1 } ∷ rest
    else record { value = value; count = 1 } ∷ top ∷ rest

-- A count is 1 at least.
abbrev pub popped : List TagValue → List TagValue
popped [] = []
popped (top ∷ rest) = if top.count == 1 then rest else record top { count = top.count - 1 } ∷ rest

abbrev pub is_last : List TagValue → Bool
is_last [] = false
is_last (top ∷ rest) = top.count == 1

-- `bctbx_push_log_tag`
unfoldable pub push_tag : (type value : Bytes) → LogTags → LogTags
push_tag type value t = record t { tags = at_type type (pushed value) t.tags; tags_modified = true }

-- `bctbx_pop_log_tag`
unfoldable pub pop_tag : (type : Bytes) → LogTags → LogTags
pop_tag type t = record t {
  tags = at_type type popped t.tags;
  tags_modified = if is_last (stack_of type t.tags) then true else t.tags_modified;
}

-- The loop over the stacks from the last to the first; each value goes to the front.
abbrev pub with_top : List TagValue → List Bytes → List Bytes
with_top [] found = found
with_top (top ∷ rest) found = top.value ∷ found

abbrev pub gather : (found : List Bytes) (backwards : List TagStack) → List Bytes
gather found [] = found
gather found (t ∷ rest) = gather (with_top t.stack found) rest

abbrev pub backwards : (done : List TagStack) → List TagStack → List TagStack
backwards done [] = done
backwards done (t ∷ rest) = backwards (t ∷ done) rest

-- `getTags`
unfoldable pub get_tags : LogTags → List Bytes × LogTags
get_tags t =
    if t.tags_modified
    then (let found = gather [] (backwards [] t.tags) in
        (
          found,
          record t { current_tags = found; current_tags_c_list = found; tags_modified = false },
        ))
    else (t.current_tags, t)

-- `bctbx_get_log_tags`
unfoldable pub get_log_tags : LogTags → List Bytes × LogTags
get_log_tags t = let (found, t') = get_tags t in (t'.current_tags_c_list, t')

-- A type with a value.
pub record Tag : Type 0 where
  pub tag_type : Bytes
  pub value : Bytes

abbrev pub with_tag : Bytes → List TagValue → List Tag → List Tag
with_tag type [] copy = copy
with_tag type (top ∷ rest) copy = record { tag_type = type; value = top.value } ∷ copy

-- `bctbx_create_log_tags_copy`
unfoldable pub create_copy : List TagStack → List Tag
create_copy [] = []
create_copy (t ∷ rest) = with_tag t.tag_type t.stack (create_copy rest)

-- `bctbx_paste_log_tags`
unfoldable pub paste : List Tag → LogTags → LogTags
paste [] t = t
paste (p ∷ ctx) t = paste ctx (push_tag p.tag_type p.value t)
