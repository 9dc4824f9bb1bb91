-- ===== src/Middleware/Compression/Laws.antt =====
-- What the compression middleware makes of a response, on every branch.
use silent.Prelude.{
  ◌≡◌, ◌≤◌, ◌<◌, ℕ, ltb, ◌⊎◌, Option, if◌then◌else◌, ◌=?◌, Bool, refl, ap, ◌∙◌, inl, inr, true,
  false, none, some, arith, Bool-cases, nat_Eq,
}
use silent.Text.{Text, text, Text_Eq}
use silent.Core.Error.{ok}
use silent.Core.Http.{HeaderApi, Request, Response, stream}
use silent.Core.Next.{Handler}
use silent.Middleware.Compression.{
  Algorithm, Encoders, Compression, type_compresses, upper, leaves_alone, compressed, finish_with,
  algorithm_of, handle, encoding_name,
}
use silent.Middleware.Compression.Choice.{Enabled, algorithm_of-Enabled}

module _ {H : Type 0} ⦃api : HeaderApi H⦄ ⦃encoders : Encoders⦄ where
  -- The response is not encoded, its type compresses, and it is not known to be too small.
  abbrev pub Suits : Compression → Response H → Type 0
  Suits self res =
      (api.get (text "content-encoding") res.headers ≡ none)
      × ((type_compresses (api.get (text "content-type") res.headers) ≡ true)
          × ((upper res.body ≡ none) ⊎ ((n : ℕ) × (upper res.body ≡ some n) × (self.min_size ≤ n))))

  -- The response is encoded already, or its type does not compress, or it is known to be too small.
  abbrev pub Unfit : Compression → Response H → Type 0
  Unfit self res =
      ((v : Text) × (api.get (text "content-encoding") res.headers ≡ some v))
      ⊎ ((type_compresses (api.get (text "content-type") res.headers) ≡ false)
          ⊎ ((n : ℕ) × (upper res.body ≡ some n) × (n < self.min_size)))

  -- What a name finds in the headers of a compressed response.
  abbrev pub header_of : Algorithm → Text → H → Option Text
  header_of a k h =
      if text "content-length" =? k
      then none
      else if text "vary" =? k
      then some (text "Accept-Encoding")
      else if text "content-encoding" =? k
      then some (encoding_name a)
      else api.get k h

  get-compressed :
      (a : Algorithm) (k : Text) (res : Response H)
      → api.get k (compressed a res).headers ≡ header_of a k res.headers
  get-compressed a k res =
      let h₁ = api.insert (text "content-encoding") (encoding_name a) res.headers in
      let h₂ = api.insert (text "vary") (text "Accept-Encoding") h₁ in
      api.get-remove k (text "content-length") h₂
      ∙ ap (λ o. if text "content-length" =? k then none else o)
          (api.get-insert k (text "vary") (text "Accept-Encoding") h₁
            ∙ ap (λ o. if text "vary" =? k then some (text "Accept-Encoding") else o)
                (api.get-insert k (text "content-encoding") (encoding_name a) res.headers))

  -- A compressed response is left alone by every compression middleware around this one.
  leaves_alone-compressed :
      (other : Compression) (a : Algorithm) (res : Response H)
      → leaves_alone other (compressed a res) ≡ true
  leaves_alone-compressed other a res = rw (get-compressed a (text "content-encoding") res) refl

  leaves_alone_cases :
      (self : Compression) (res : Response H)
      → ((leaves_alone self res ≡ true) × Unfit self res)
        ⊎ ((leaves_alone self res ≡ false) × Suits self res)
  leaves_alone_cases self res =
      by_parts (api.get (text "content-encoding") res.headers)
        (type_compresses (api.get (text "content-type") res.headers)) (upper res.body) refl refl
        refl
    where
      by_parts :
          (e : Option Text) (t : Bool) (u : Option ℕ)
          → api.get (text "content-encoding") res.headers ≡ e
          → type_compresses (api.get (text "content-type") res.headers) ≡ t
          → upper res.body ≡ u
          → ((leaves_alone self res ≡ true) × Unfit self res)
            ⊎ ((leaves_alone self res ≡ false) × Suits self res)
      by_parts (some v) t u he ht hu = inl (rw he refl, inl (v, he))
      by_parts none false u he ht hu = inl (rw (he, ht) refl, inr (inl ht))
      by_parts none true none he ht hu = inr (rw (he, ht, hu) refl, (he, (ht, inl hu)))
      by_parts none true (some n) he ht hu = elim (Bool-cases (ltb n self.min_size)) [
        | inl small ↦ inl (rw (he, ht, hu) (ground arith), inr (inr (n, hu, ground arith)))
        | inr enough ↦ inr (rw (he, ht, hu) (ground arith), (he, (ht, inr (n, hu, ground arith))))
      ]

  abbrev pub asked : Compression → Request H → Option Algorithm
  asked self req = algorithm_of self (api.get (text "accept-encoding") req.headers)

  -- The response is as the chain answered it, for one of the reasons to leave it.
  abbrev pub KeptAs : Compression → Request H → Response H → Response H → Type 0
  KeptAs self req res out = (out ≡ res) × ((asked self req ≡ none) ⊎ Unfit self res)

  -- The response is compressed: `k` is the name of a header.
  abbrev pub CompressedAs : Compression → Request H → Text → Response H → Response H → Type 0
  CompressedAs self req k res out =
      (a : Algorithm) × (asked self req ≡ some a)
      × Enabled self a
      × Suits self res
      × (out.status ≡ res.status)
      × (out.body ≡ stream (encoders.encode a res.body))
      × (api.get k out.headers ≡ header_of a k res.headers)

  again :
      (other : Compression) (c : Option Algorithm) (res : Response H)
      → leaves_alone other res ≡ true
      → finish_with other c (ok res) ≡ ok res
  again other none res alone = refl
  again other (some a) res alone = rw alone refl

module _ {H W : Type 0} ⦃api : HeaderApi H⦄ ⦃encoders : Encoders⦄ where
  -- When the chain answers with a response, it goes out as it is if no algorithm was negotiated, it
  -- has an encoding, its type does not compress, or its size is known and below the least size.
  -- Otherwise an algorithm was negotiated, which is switched on, and none of those reasons holds;
  -- the response keeps its status, its body is the stream that compresses the body, its headers
  -- name the algorithm as the encoding, have `Vary` set and no length and are as before under every
  -- other name; and a second compression middleware around this one, with whatever settings, leaves
  -- it as it is.
  pub handle-compressed :
      (self other : Compression) (req : Request H) (next : Handler H W) (w : W) (k : Text)
      (res : Response H)
      → (next req w).0 ≡ ok res
      → (out : Response H) × (handle self req next w ≡ (ok out, (next req w).1))
        × (KeptAs self req res out
            ⊎ (CompressedAs self req k res out
                × (handle other req (λ r. handle self r next) w ≡ (ok out, (next req w).1))))
  unfolding handle
  handle-compressed self other req next w k res answered =
      by_choice (asked self req) refl (leaves_alone_cases self res)
    where
      at_choice :
          (c : Option Algorithm) (out : Response H)
          → asked self req ≡ c
          → finish_with self c (ok res) ≡ ok out
          → handle self req next w ≡ (ok out, (next req w).1)
      at_choice c out chosen e =
          ap (λ r. (r, (next req w).1))
            (ap (λ d. finish_with self d (next req w).0) chosen
              ∙ ap (finish_with self c) answered
              ∙ e)

      by_choice :
          (c : Option Algorithm)
          → asked self req ≡ c
          → ((leaves_alone self res ≡ true) × Unfit self res)
            ⊎ ((leaves_alone self res ≡ false) × Suits self res)
          → (out : Response H) × (handle self req next w ≡ (ok out, (next req w).1))
            × (KeptAs self req res out
                ⊎ (CompressedAs self req k res out
                    × (handle other req (λ r. handle self r next) w ≡ (ok out, (next req w).1))))
      by_choice none chosen fits = (res, at_choice none res chosen refl, inl (refl, inl chosen))
      by_choice (some a) chosen (inl (alone, unfit)) =
          (res, at_choice (some a) res chosen (rw alone refl), inl (refl, inr unfit))
      by_choice (some a) chosen (inr (free, suits)) =
          let out : Response H = compressed a res in
          let once = at_choice (some a) out chosen (rw free refl) in
          (
            out,
            once,
            inr (
              (
                a,
                chosen,
                algorithm_of-Enabled self (api.get (text "accept-encoding") req.headers) a chosen,
                suits,
                refl,
                refl,
                get-compressed a k res,
              ),
              ap (λ r. (finish_with other (asked other req) r.0, r.1)) once
                  ∙ ap (λ r. (r, (next req w).1))
                      (again other (asked other req) out (leaves_alone-compressed other a res)),
            ),
          )
