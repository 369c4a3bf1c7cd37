-- ===== src/Frontend/Pages/Chain.antt =====
-- In which order the pages come: frontend/src/hooks/use-paginated-posts.ts.
use escld.Prelude.{
  String, ◌≡◌, refl, sym, ◌∙◌, subst, inl, inr, Bool, true, false, not, ◌||◌, Option, none, some,
  List, [], ◌∷◌, arith, Bool-cases,
}
use escld.Frontend.Pages.{
  PostPage, Answer, page, failure, Request, first_page, next_page, Pages, is_some, asked_last,
  first_ends, load_more, next_ends, answer, remove_post, render, unmount, Step, answers, more,
  removes, renders, unmounts, Reachable, start, step,
}

-- Where the next page starts, and whether there is one.
abbrev pub tip : List (Option String × PostPage) → Option String
tip [] = none
tip ((c, p) ∷ older) = p.next_cursor

abbrev pub goes_on : List (Option String × PostPage) → Bool
goes_on [] = true
goes_on ((c, p) ∷ older) = is_some p.next_cursor

-- Each page was asked for where the one before it ended, and that one was not the last.
abbrev pub IsChain : List (Option String × PostPage) → Type 0
IsChain [] = Unit
IsChain ((c, p) ∷ older) = (c ≡ tip older) × (goes_on older ≡ true) × IsChain older

-- The request that is out asks for the next page.
abbrev IsAsked : Option Request → Pages → Type 0
IsAsked none s = s.loading_ref ≡ false
IsAsked (some r) s =
    (asked_last s.asked ≡ tip s.answered) × (goes_on s.answered ≡ true) × (s.loading_ref ≡ true)

IsAsked-same :
    (r : Option Request) (s t : Pages)
    → t.asked ≡ s.asked
    → t.answered ≡ s.answered
    → t.loading_ref ≡ s.loading_ref
    → IsAsked r s
    → IsAsked r t
IsAsked-same none s t p q l h = l ∙ h
IsAsked-same (some r) s t p q l (a, g, b) = (cc (a, p, q), cc (g, q), l ∙ b)

seen_more : (b m : Bool) → (b || not m) ≡ false → m ≡ true
seen_more b m h = ground arith

record IsValid (s : Pages) : Type 0 where
  pub chain : IsChain s.answered
  pub cursor_is : s.cursor ≡ tip s.answered
  pub more_is : s.has_more ≡ goes_on s.answered
  pub request : IsAsked s.awaited s

first_ends-IsValid :
    (a : Answer) (s : Pages) → IsAsked (some first_page) s → IsValid s → IsValid (first_ends a s)
unfolding first_ends
first_ends-IsValid (page p) s (q, g, l) h = elim (Bool-cases s.cancelled) [
  | inl e ↦
      simp e
        (record { chain = h.chain; cursor_is = h.cursor_is; more_is = h.more_is; request = refl })
  | inr e ↦
      simp e (record { chain = (q, g, h.chain); cursor_is = refl; more_is = refl; request = refl })
]
first_ends-IsValid (failure message) s (q, g, l) h = elim (Bool-cases s.cancelled) [
  | inl e ↦
      simp e
        (record { chain = h.chain; cursor_is = h.cursor_is; more_is = h.more_is; request = refl })
  | inr e ↦
      simp e
        (record { chain = h.chain; cursor_is = h.cursor_is; more_is = h.more_is; request = refl })
]

next_ends-IsValid :
    (a : Answer) (s : Pages) → IsAsked (some next_page) s → IsValid s → IsValid (next_ends a s)
unfolding next_ends
next_ends-IsValid (page p) s (q, g, l) h = record {
  chain = (q, g, h.chain);
  cursor_is = refl;
  more_is = refl;
  request = refl;
}
next_ends-IsValid (failure message) s (q, g, l) h = record {
  chain = h.chain;
  cursor_is = h.cursor_is;
  more_is = h.more_is;
  request = refl;
}

answer-IsValid : (a : Answer) (s : Pages) → IsValid s → IsValid (answer a s)
unfolding answer
answer-IsValid a s h = go s.awaited refl h.request
  where
    go : (r : Option Request) → s.awaited ≡ r → IsAsked r s → IsValid (answer a s)
    go none e k = rw (e, answer) h
    go (some first_page) e k = rw (e, answer) (first_ends-IsValid a s k h)
    go (some next_page) e k = rw (e, answer) (next_ends-IsValid a s k h)

load_more-IsValid :
    (s : Pages)
    → s.seen_cursor ≡ s.cursor
    → s.seen_has_more ≡ s.has_more
    → IsValid s
    → IsValid (load_more s)
unfolding load_more
load_more-IsValid s p q h = elim (Bool-cases (s.loading_ref || not s.seen_has_more)) [
  | inl e ↦ simp e h
  | inr e ↦ simp e (record {
    chain = h.chain;
    cursor_is = h.cursor_is;
    more_is = h.more_is;
    request =
        (p ∙ h.cursor_is, sym h.more_is ∙ sym q ∙ seen_more s.loading_ref s.seen_has_more e, refl);
  })
]

Step-IsValid : {s t : Pages} → Step s t → IsValid s → IsValid t
unfolding remove_post
Step-IsValid {s} (answers a) h = answer-IsValid a s h
Step-IsValid {s} (more p q) h = load_more-IsValid s p q h
Step-IsValid {s} (removes id) h = record {
  chain = h.chain;
  cursor_is = h.cursor_is;
  more_is = h.more_is;
  request = IsAsked-same s.awaited s (remove_post id s) refl refl refl h.request;
}
Step-IsValid {s} renders h = record {
  chain = h.chain;
  cursor_is = h.cursor_is;
  more_is = h.more_is;
  request = IsAsked-same s.awaited s (render s) refl refl refl h.request;
}
Step-IsValid {s} unmounts h = record {
  chain = h.chain;
  cursor_is = h.cursor_is;
  more_is = h.more_is;
  request = IsAsked-same s.awaited s (unmount s) refl refl refl h.request;
}

Reachable-IsValid : {s : Pages} → Reachable s → IsValid s
Reachable-IsValid start = record {
  chain = tt;
  cursor_is = refl;
  more_is = refl;
  request = (refl, refl, refl);
}
Reachable-IsValid (step r st) = Step-IsValid st (Reachable-IsValid r)

-- However requests, answers, errors, removals and renders follow one another, each page that
-- was taken was asked for by the cursor that the page taken before it returned, the first one by none,
-- and no page was taken after one that returned no cursor. The cursor and has_more are those of the
-- page taken last, and a request that is out asks by them, while loadMore is held back.
pub Reachable-IsChain :
    {s : Pages}
    → Reachable s
    → IsChain s.answered
      × (s.cursor ≡ tip s.answered)
      × (s.has_more ≡ goes_on s.answered)
      × ((r : Request)
          → s.awaited ≡ some r
          → (asked_last s.asked ≡ tip s.answered)
            × (goes_on s.answered ≡ true)
            × (s.loading_ref ≡ true))
Reachable-IsChain {s} r =
    let h = Reachable-IsValid r in
    (h.chain, h.cursor_is, h.more_is, λ q e. subst (λ o. IsAsked o s) e h.request)
