-- ===== src/Custody/Secure.antt =====
-- agent/cg-agent/src/custody.rs: what an object is that passes the checks, and why one fails them.
use cyber_guard_enterprise.Prelude.{◌≡◌, refl, Option, none, some, Text, inl, inr, ◌⊎◌}
use cyber_guard_enterprise.Prelude.Results.{
  Result, ok, err, Done, done, map_err, Holds, Holds-then, Holds-bind, Holds-map_err,
}
use cyber_guard_enterprise.Custody.{Unread, unreadable, refused, read_through, read_checked_within}
use cyber_guard_enterprise.Custody.Security.{
  Sids, Policy, file, Information, Descriptor, Handle, shape_of, check_descriptor,
}
use cyber_guard_enterprise.Custody.Descriptors.{
  IsSecure, IsFile, shape_of-IsFile, Passes, check_descriptor-IsSecure,
}

module _ (sids : Sids) (opened : Result Text (Option Handle)) (path : Text) (policy : Policy) where
  -- What a read returns: nothing where nothing is, and else what the handle reads of an object that
  -- passes.
  abbrev pub Reads : Option Text → Type 0
  Reads none = opened ≡ ok none
  Reads (some contents) =
      (handle : Handle) × (opened ≡ ok (some handle))
      × Passes sids policy handle
      × (handle.contents ≡ ok contents)

  -- Why a read fails: a call of Windows's failed, or what was read of the object does not fit.
  abbrev pub Fails : Unread → Type 0
  Fails (unreadable reason) =
      (opened ≡ err reason)
      ⊎ ((handle : Handle) × (opened ≡ ok (some handle))
          × ((handle.information ≡ err reason)
              ⊎ ((handle.security ≡ err reason) ⊎ (handle.contents ≡ err reason))))
  Fails (refused reason) =
      (handle : Handle) × (opened ≡ ok (some handle))
      × (((info : Information) × (handle.information ≡ ok info) × ¬ IsFile info)
          ⊎ ((d : Descriptor) × (handle.security ≡ ok d) × ¬ IsSecure sids policy d))

  read_through-Judged :
      (handle : Handle)
      → opened ≡ ok (some handle)
      → Holds Fails Reads (read_through sids handle path policy)
  unfolding read_through
  read_through-Judged handle at =
      Holds-bind Fails Reads (λ info. handle.information ≡ ok info)
        (map_err unreadable handle.information) _
        (Holds-map_err Fails (λ info. handle.information ≡ ok info) unreadable handle.information
          (λ e failed. inr (handle, at, inl failed)) (λ info informs. informs))
        (λ info informs.
          Holds-then Fails Reads (IsFile info) (map_err refused (shape_of info path file)) _
            (Holds-map_err Fails (λ _. IsFile info) refused (shape_of info path file)
              (λ e misfit. (handle, at, inl (info, informs, misshapen info e misfit)))
              (λ d fits. (shape_of-IsFile info path).0 (finished d fits)))
            (λ is_file.
              Holds-bind Fails Reads (λ d. handle.security ≡ ok d)
                (map_err unreadable handle.security) _
                (Holds-map_err Fails (λ d. handle.security ≡ ok d) unreadable handle.security
                  (λ e failed. inr (handle, at, inr (inl failed))) (λ d describes. describes))
                (λ d describes.
                  Holds-then Fails Reads (IsSecure sids policy d)
                    (map_err refused (check_descriptor sids d path policy)) _
                    (Holds-map_err Fails (λ _. IsSecure sids policy d) refused
                      (check_descriptor sids d path policy)
                      (λ e misfit. (handle, at, inr (d, describes, insecure d e misfit)))
                      (λ x fits.
                        (check_descriptor-IsSecure sids path policy d).0 (finished x fits)))
                    (λ is_secure.
                      Holds-bind Fails Reads (λ contents. handle.contents ≡ ok contents)
                        (map_err unreadable handle.contents) _
                        (Holds-map_err Fails (λ contents. handle.contents ≡ ok contents) unreadable
                          handle.contents (λ e failed. inr (handle, at, inr (inr failed)))
                          (λ contents holds. holds))
                        (λ contents holds. (
                          handle,
                          at,
                          record {
                            info = info;
                            informs = informs;
                            is_file = is_file;
                            descriptor = d;
                            describes = describes;
                            is_secure = is_secure;
                          },
                          holds,
                        ))))))
    where
      finished : {r : Result Text Done} (d : Done) → r ≡ ok d → r ≡ ok done
      finished done e = e

      misshapen : (info : Information) (e : Text) → shape_of info path file ≡ err e → ¬ IsFile info
      misshapen info e misfit fits = cc (misfit, (shape_of-IsFile info path).1 fits)

      insecure :
          (d : Descriptor) (e : Text)
          → check_descriptor sids d path policy ≡ err e
          → ¬ IsSecure sids policy d
      insecure d e misfit s = cc (misfit, (check_descriptor-IsSecure sids path policy d).1 s)

-- A checked read of a file returns nothing only where nothing is; it returns the contents only of a
-- regular file with one link whose security fits the policy, read through the handle that was
-- checked; it refuses only an object that is not such a file or whose security does not fit; and
-- it finds an object unreadable only for a call that failed.
pub read_checked_within-Judged :
    (sids : Sids) (opened : Result Text (Option Handle)) (path : Text) (policy : Policy)
    → Holds
        (Fails sids opened path policy)
        (Reads sids opened path policy)
        (read_checked_within sids opened path policy)
unfolding read_checked_within
read_checked_within-Judged sids (err reason) path policy = inl refl
read_checked_within-Judged sids (ok none) path policy = refl
read_checked_within-Judged sids (ok (some handle)) path policy =
    read_through-Judged sids (ok (some handle)) path policy handle refl
