-- ===== src/Frontend/Pages.antt =====
-- Posts that are loaded a page at a time: `usePaginatedPosts` in
-- frontend/src/hooks/use-paginated-posts.ts. It is split at its awaits: a request goes out, and its
-- answer comes in.
pub mod Chain
pub mod Tests
use escld.Prelude.{
  String, ◌≡◌, Bool, true, false, not, ◌||◌, Option, none, some, List, [], ◌∷◌, ◌++◌, ◌==◌,
  if◌then◌else◌,
}

-- What the hook reads of a post, and a page as the backend returns it.
pub record Post : Type 0 where
  pub id : String
  pub description : Option String

pub record PostPage : Type 0 where
  pub items : List Post
  pub next_cursor : Option String

-- What `fetchPage` ends with: a page, or an error with the message that is shown for it.
pub data Answer : Type 0 where
  page : PostPage → Answer
  failure : String → Answer

-- Which request is awaited.
pub data Request : Type 0 where
  first_page next_page : Request

-- The state of the hook, `loadingRef`, and whether it was unmounted. `seen_cursor` and
-- `seen_has_more` are the values of the last render, which `loadMore` reads. `asked` are the cursors
-- that `fetchPage` was called with, `answered` the pages that were taken with theirs, the last one
-- first.
pub record Pages : Type 0 where
  pub posts : List Post
  pub cursor : Option String
  pub has_more : Bool
  pub loading : Bool
  pub error : Option String
  pub loading_ref : Bool
  pub cancelled : Bool
  pub seen_cursor : Option String
  pub seen_has_more : Bool
  pub awaited : Option Request
  pub asked : List (Option String)
  pub answered : List (Option String × PostPage)

-- After the mount: the first page is asked for.
abbrev pub mounted : Pages
mounted = record {
  posts = [];
  cursor = none;
  has_more = true;
  loading = true;
  error = none;
  loading_ref = true;
  cancelled = false;
  seen_cursor = none;
  seen_has_more = true;
  awaited = some first_page;
  asked = none ∷ [];
  answered = [];
}

-- `page.nextCursor !== null`.
abbrev pub is_some {ℓ} : {A : Type ℓ} → Option A → Bool
is_some none = false
is_some (some a) = true

-- The cursor of the request that is out.
abbrev pub asked_last : List (Option String) → Option String
asked_last [] = none
asked_last (c ∷ cs) = c

-- `then`, `catch` and `finally` of the first request.
abbrev take_first : Answer → Pages → Pages
take_first (page p) s = record s {
  posts = p.items;
  cursor = p.next_cursor;
  has_more = is_some p.next_cursor;
  answered = (asked_last s.asked, p) ∷ s.answered;
}
take_first (failure message) s = record s { error = some message }

unfoldable pub first_ends : Answer → Pages → Pages
first_ends a s =
    if s.cancelled
    then record s { loading_ref = false; awaited = none }
    else record (take_first a s) { loading_ref = false; loading = false; awaited = none }

unfoldable pub load_more : Pages → Pages
load_more s = if s.loading_ref || not s.seen_has_more then s else record s {
  loading_ref = true;
  loading = true;
  awaited = some next_page;
  asked = s.seen_cursor ∷ s.asked;
}

-- What `loadMore` does with the answer.
abbrev take_next : Answer → Pages → Pages
take_next (page p) s = record s {
  posts = s.posts ++ p.items;
  cursor = p.next_cursor;
  has_more = is_some p.next_cursor;
  error = none;
  answered = (asked_last s.asked, p) ∷ s.answered;
}
take_next (failure message) s = record s { error = some message }

unfoldable pub next_ends : Answer → Pages → Pages
next_ends a s = record (take_next a s) { loading_ref = false; loading = false; awaited = none }

-- The answer to the request that is out.
unfoldable pub answer : Answer → Pages → Pages
unfolding first_ends next_ends
answer a s = elim s.awaited [
  | none ↦ s
  | some r ↦ elim r [ first_page ↦ first_ends a s | next_page ↦ next_ends a s ]
]

abbrev without : String → List Post → List Post
without id [] = []
without id (p ∷ ps) = let rest = without id ps in if p.id == id then rest else p ∷ rest

unfoldable pub remove_post : String → Pages → Pages
remove_post id s = record s { posts = without id s.posts }

abbrev pub render : Pages → Pages
render s = record s { seen_cursor = s.cursor; seen_has_more = s.has_more }

abbrev pub unmount : Pages → Pages
unmount s = record s { cancelled = true }

-- What happens to the hook. `loadMore` is called on values that were rendered.
pub data Step (s : Pages) : Pages → Type 0 where
  answers : (a : Answer) → Step s (answer a s)
  more : s.seen_cursor ≡ s.cursor → s.seen_has_more ≡ s.has_more → Step s (load_more s)
  removes : (id : String) → Step s (remove_post id s)
  renders : Step s (render s)
  unmounts : Step s (unmount s)

pub data Reachable : Pages → Type 0 where
  start : Reachable mounted
  step : {s t : Pages} → Reachable s → Step s t → Reachable t
