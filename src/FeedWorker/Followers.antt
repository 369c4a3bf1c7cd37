-- ===== src/FeedWorker/Followers.antt =====
-- `listFollowers` of feed-worker/src/dynamo.ts returns the followers of every page.
use escld.Prelude.{
  String, ◌≡◌, refl, subst, Option, none, some, List, [], ◌∷◌, map, append-nil, arith, length,
  concat, length-map, ok,
}
use Prim.Native.String.{◌++◌ as append_text}
use escld.Js.Text.Cuts.{append-nonempty, utf16_drop-append}
use escld.FeedWorker.Dynamo.{
  follower_prefix, Dynamo, user_key, followers_of, list_from, list_followers,
}

-- The pages that the query gives from a key on, when nothing fails, and what each leaves.
pub data Pages {W : Type 0} (dynamo : Dynamo W) (author_id : String)
    : Option dynamo.Key → W → List (List (Option String)) → W → Type 0 where
  last_page :
      (start : Option dynamo.Key) (w after : W) (keys : List (Option String))
      → dynamo.query (user_key author_id) follower_prefix start w
        ≡ (ok (record { sort_keys = keys; last_evaluated_key = none }), after)
      → Pages dynamo author_id start w (keys ∷ []) after
  next_page :
      (start : Option dynamo.Key) (w after end : W) (keys : List (Option String))
      (next : dynamo.Key) (pages : List (List (Option String)))
      → dynamo.query (user_key author_id) follower_prefix start w
        ≡ (ok (record { sort_keys = keys; last_evaluated_key = some next }), after)
      → Pages dynamo author_id (some next) after pages end
      → Pages dynamo author_id start w (keys ∷ pages) end

list_from-Pages :
    {W : Type 0} (dynamo : Dynamo W) (author_id : String) (start : Option dynamo.Key) (w end : W)
    (pages : List (List (Option String)))
    → Pages dynamo author_id start w pages end
    → list_from dynamo author_id (length pages) start w
      ≡ (some (ok (concat (map followers_of pages))), end)
unfolding list_from
list_from-Pages dynamo author_id start w end pages (last_page s x after keys answer) =
    rw (answer, append-nil (followers_of keys)) refl
list_from-Pages dynamo author_id start w end pages
      (next_page s x after e keys next more answer rest) =
    rw (answer, list_from-Pages dynamo author_id (some next) after end more rest) refl

-- The follower id is what follows the prefix of its key.
abbrev pub follower_key : String → String
follower_key id = append_text follower_prefix id

followers_of-keys :
    (ids : List String) → followers_of (map (λ id. some (follower_key id)) ids) ≡ ids
followers_of-keys [] = refl
followers_of-keys (id ∷ ids) =
    rw
      (
        append-nonempty follower_prefix id (omega arith),
        utf16_drop-append follower_prefix id,
        followers_of-keys ids,
      )
      refl

-- Where the query answers with a finite row of pages, as many rounds as there are pages are enough,
-- and the ids of all pages come back in their order.
pub list_followers-all :
    {W : Type 0} (dynamo : Dynamo W) (author_id : String) (w end : W) (pages : List (List String))
    → Pages dynamo author_id none w (map (map (λ id. some (follower_key id))) pages) end
    → list_followers dynamo author_id (length pages) w ≡ (some (ok (concat pages)), end)
unfolding list_followers
list_followers-all dynamo author_id w end pages answers =
    subst (λ n. list_from dynamo author_id n none w ≡ (some (ok (concat pages)), end))
      (length-map (map (λ id. some (follower_key id))) pages)
      (subst
        (λ ids.
          list_from dynamo author_id (length (map (map (λ id. some (follower_key id))) pages)) none
            w
          ≡ (some (ok ids), end))
        (ids_of pages)
        (list_from-Pages dynamo author_id none w end
          (map (map (λ id. some (follower_key id))) pages) answers))
  where
    ids_of :
        (pages : List (List String))
        → concat (map followers_of (map (map (λ id. some (follower_key id))) pages)) ≡ concat pages
    ids_of [] = refl
    ids_of (page ∷ pages) = rw (followers_of-keys page, ids_of pages) refl
