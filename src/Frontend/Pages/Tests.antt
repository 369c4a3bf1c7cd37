-- ===== src/Frontend/Pages/Tests.antt =====
-- Runs of frontend/src/hooks/use-paginated-posts.ts.
use escld.Prelude.{String, ◌≡◌, refl, true, none, some, [], ◌∷◌, map}
use escld.Frontend.Pages.{
  Post, Answer, page, Request, Pages, mounted, asked_last, load_more, answer, render, Reachable,
  start, step, answers, more, renders,
}
use escld.Frontend.Pages.Chain.{IsChain, tip, goes_on, Reachable-IsChain}

abbrev post : String → Post
post id = record { id = id; description = none }

abbrev page_one : Answer
page_one = page (record { items = post "a" ∷ post "b" ∷ []; next_cursor = some "2" })

abbrev page_two : Answer
page_two = page (record { items = post "c" ∷ []; next_cursor = none })

abbrev two_pages : Pages
two_pages = answer page_two (load_more (render (answer page_one mounted)))

two_pages_run : map (λ p. p.id) two_pages.posts ≡ "a" ∷ "b" ∷ "c" ∷ []
unfolding answer load_more
two_pages_run = refl

-- Without a render in between the first page is asked for again, and its posts stand there twice.
stale_run :
    map (λ p. p.id) (answer page_one (load_more (answer page_one mounted))).posts
    ≡ "a" ∷ "b" ∷ "a" ∷ "b" ∷ []
unfolding answer load_more
stale_run = refl

two_pages-Reachable : Reachable two_pages
two_pages-Reachable =
    step (step (step (step start (answers page_one)) renders) (more refl refl)) (answers page_two)

Reachable-IsChain_example :
    IsChain two_pages.answered
    × (two_pages.cursor ≡ tip two_pages.answered)
    × (two_pages.has_more ≡ goes_on two_pages.answered)
    × ((r : Request)
        → two_pages.awaited ≡ some r
        → (asked_last two_pages.asked ≡ tip two_pages.answered)
          × (goes_on two_pages.answered ≡ true)
          × (two_pages.loading_ref ≡ true))
Reachable-IsChain_example = Reachable-IsChain two_pages-Reachable
