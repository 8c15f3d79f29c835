-- ===== src/Queue/Cache.antt =====
-- The URLs that the manager keeps for the names of queues.
use Prim.Native.String.{◌++◌ as text_append, count}
use text.Mathlib.TextLemmas.{
  append_assoc as text_append_assoc, append_cancel_right, append_inj, length-append as count-append,
}
use flotilla_os.Common.{
  Bool, true, false, String, List, ◌∷◌, some, Result, ok, err, ◌≡◌, refl, sym, ◌∙◌, ap, arith,
  eq_iff, Option-cases, inl, inr, ◌≢◌, ◌⊎◌,
}
use flotilla_os.Queue.{
  Sqs, SqsManager, cache_key, cached_url, queue_name, get_or_create_queue, cache_got, qurl_for,
}

counts_equal : (s t : String) → text_append s "ue" ≡ text_append t "se" → count s ≡ count t
counts_equal s t e = omega (arith, ap count e, count-append s "ue", count-append t "se")

ends_differ : (s t : String) → text_append s "ue" ≢ text_append t "se"
ends_differ s t e =
    let same : ◌≡◌ {A = String} "ue" "se" = (append_inj e (counts_equal s t e)).1 in
    cc ((eq_iff "ue" "se").1 same)

keys_differ : (n n' : String) → text_append n "-true" ≢ text_append n' "-false"
keys_differ n n' h =
    ends_differ (text_append n "-tr") (text_append n' "-fal")
      (text_append_assoc n "-tr" "ue" ∙ h ∙ sym (text_append_assoc n' "-fal" "se"))

cache_key_injective :
    (n n' : String) (p p' : Bool) → cache_key n p ≡ cache_key n' p' → (n ≡ n') × (p ≡ p')
unfolding cache_key
cache_key_injective n n' true true h = (append_cancel_right n n' "-true" h, refl)
cache_key_injective n n' false false h = (append_cancel_right n n' "-false" h, refl)
cache_key_injective n n' true false h = absurd (keys_differ n n' h)
cache_key_injective n n' false true h = absurd (keys_differ n' n (sym h))

cached_head :
    (key k url u : String) (rest : List (String × String))
    → cached_url k ((key, url) ∷ rest) ≡ some u
    → ((key ≡ k) × (u ≡ url)) ⊎ (cached_url k rest ≡ some u)
unfolding cached_url
cached_head key k url u rest h = ground (arith, eq_iff key k)

module _ {S : Type 0} (sqs : Sqs S) (url_of : String → String) where
  open sqs use {get_queue_url, create_queue}

  -- SQS gives every queue one URL.
  abbrev pub HasOneUrl : Type 0
  HasOneUrl =
      ((name url : String) (s : S) → get_queue_url name s ≡ some url → url ≡ url_of name)
      × ((name url : String) (s : S) → (create_queue name s).1 ≡ ok url → url ≡ url_of name)

  -- The map holds the URL of the queue that its key stands for.
  abbrev pub CacheIsTrue : SqsManager → Type 0
  CacheIsTrue qm =
      (name : String) (prefixed : Bool) (url : String)
      → cached_url (cache_key name prefixed) qm.qurl_cache ≡ some url
      → url ≡ url_of (queue_name qm.namespace name prefixed)

  abbrev pub IsUrlOf : String → Result String → Type 0
  IsUrlOf name (ok url) = url ≡ url_of name
  IsUrlOf name (err e) = Unit

  is_url_of :
      (name : String) (r : Result String)
      → ((url : String) → r ≡ ok url → url ≡ url_of name)
      → IsUrlOf name r
  is_url_of name (ok url) h = h url refl
  is_url_of name (err e) h = tt

  got-IsUrlOf :
      HasOneUrl
      → (namespace name : String) (prefixed : Bool) (s : S)
      → IsUrlOf
          (queue_name namespace name prefixed)
          (get_or_create_queue sqs namespace name prefixed s).1
  unfolding get_or_create_queue
  got-IsUrlOf (got, made) namespace name prefixed s =
      elim (Option-cases (get_queue_url (queue_name namespace name prefixed) s)) [
        | inr (url, found) ↦
            rw (found, get_or_create_queue) (got (queue_name namespace name prefixed) url s found)
        | inl absent ↦
            rw (absent, get_or_create_queue)
              (is_url_of (queue_name namespace name prefixed)
                (create_queue (queue_name namespace name prefixed) s).1
                (λ url e. made (queue_name namespace name prefixed) url s e))
      ]

  cached-CacheIsTrue :
      (qm : SqsManager) (name : String) (prefixed : Bool) (answer : S × Result String)
      → CacheIsTrue qm
      → IsUrlOf (queue_name qm.namespace name prefixed) answer.1
      → let (qm', s', url) = cache_got sqs (cache_key name prefixed) answer qm in
        CacheIsTrue qm'
        × (qm'.namespace ≡ qm.namespace)
        × IsUrlOf (queue_name qm.namespace name prefixed) url
  unfolding cache_got
  cached-CacheIsTrue qm name prefixed (s, err e) true_cache is_url = (true_cache, refl, tt)
  cached-CacheIsTrue qm name prefixed (s, ok url) true_cache is_url = (
    λ n p u h. elim (cached_head (cache_key name prefixed) (cache_key n p) url u qm.qurl_cache h) [
      | inr old ↦ true_cache n p u old
      | inl (same, e) ↦
          let (names, prefixes) = cache_key_injective name n prefixed p same in
          e ∙ is_url ∙ rw (names, prefixes) refl
    ],
    refl,
    is_url,
  )

  -- The cache stays true when a queue is asked for, and what is returned is the URL of that queue,
  -- whether it comes from the cache, was found or was made, if SQS gives every queue one URL.
  pub qurl_for-CacheIsTrue :
      HasOneUrl
      → (name : String) (prefixed : Bool) (qm : SqsManager) (s : S) → CacheIsTrue qm
      → let (qm', s', url) = qurl_for sqs name prefixed qm s in
        CacheIsTrue qm'
        × (qm'.namespace ≡ qm.namespace)
        × IsUrlOf (queue_name qm.namespace name prefixed) url
  unfolding qurl_for
  qurl_for-CacheIsTrue one name prefixed qm s true_cache =
      elim (Option-cases (cached_url (cache_key name prefixed) qm.qurl_cache)) [
        | inr (url, found) ↦
            rw (found, qurl_for) (true_cache, refl, true_cache name prefixed url found)
        | inl absent ↦
            rw (absent, qurl_for)
              (cached-CacheIsTrue qm name prefixed
                (get_or_create_queue sqs qm.namespace name prefixed s) true_cache
                (got-IsUrlOf one qm.namespace name prefixed s))
      ]
