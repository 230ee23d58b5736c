-- ===== src/Eztik/Data/Loading.antt =====
-- Loading all models at once, against loading them one by one.
use tiksrv.Base.{
  ◌≡◌, refl, ap, ◌∙◌, Bool, true, false, none, some, List, [], ◌∷◌, ◌++◌, if◌then◌else◌,
}
use tiksrv.Base.Outcome.{Outcome, returned, thrown, stopped, ◌>>=◌}
use tiksrv.RouterOs.Response.{ResponseSentence, empty}
use tiksrv.RouterOs.Api.State.{Reply, failure, response}
use tiksrv.Eztik.Data.{
  Loaded, load_failed, loaded, load_ended, stream_reply, LoadedAll, load_all_failed, loaded_all,
  collect_reply, stream_replies, collect_replies, collect_on, go_on,
}

module _ {M : Type 0} (create : ResponseSentence → Outcome M) where
  -- What the calls for single models amount to, with the models so far: one call at their end.
  abbrev pub gather : List M → List (Loaded create) → List (LoadedAll create)
  gather ret [] = []
  gather ret (load_failed err ∷ ls) = load_all_failed err ∷ []
  gather ret (load_ended ∷ ls) = loaded_all ret ∷ []
  gather ret (loaded m ∷ ls) = gather (ret ++ (m ∷ [])) ls

  regroup :
      (o : Outcome (List (Loaded create))) (ret : List M) (m : M)
      → ((o >>= λ ls. returned (gather (ret ++ (m ∷ [])) ls)) >>= λ ls. returned ls)
        ≡ ((o >>= λ ls. returned (loaded m ∷ ls)) >>= λ ls. returned (gather ret ls))
  regroup (returned ls) ret m = refl
  regroup (thrown x) ret m = refl
  regroup stopped ret m = refl

  -- Whatever replies a request gets, `load_all` makes one call of its function, with all the models
  -- that `load_stream` would have passed on one by one, in their order, when that comes to its end;
  -- with the error, when that would report one; and none while the end is still to come. Neither
  -- listens to replies behind that, and what `create` throws or a failed assertion stops both alike.
  pub collect_replies-stream_replies :
      (rs : List Reply) (ret : List M)
      → collect_replies create rs ret
        ≡ (stream_replies create rs >>= λ ls. returned (gather ret ls))
  unfolding collect_replies stream_replies collect_reply stream_reply
  collect_replies-stream_replies [] ret = refl
  collect_replies-stream_replies (failure err ∷ rs) ret = refl
  collect_replies-stream_replies (response r ∷ rs) ret =
      step (λ m. collect_replies-stream_replies rs (ret ++ (m ∷ []))) (empty r) (create r)
    where
      step :
          ((m : M)
            → collect_replies create rs (ret ++ (m ∷ []))
              ≡ (stream_replies create rs >>= λ ls. returned (gather (ret ++ (m ∷ [])) ls)))
          → (b : Bool) (o : Outcome M)
          → ((if b
                then returned (some (loaded_all ret), [], false)
                else (o >>= λ m. returned (none, ret ++ (m ∷ []), true)))
              >>= λ s. collect_on create s (collect_replies create rs))
            ≡ (((if b then returned (load_ended, false) else (o >>= λ m. returned (loaded m, true)))
                  >>= λ s. go_on create s (stream_replies create rs))
                >>= λ ls. returned (gather ret ls))
      step h true o = refl
      step h false (returned m) =
          ap (λ c. c >>= λ ls. returned ls) (h m) ∙ regroup (stream_replies create rs) ret m
      step h false (thrown x) = refl
      step h false stopped = refl
