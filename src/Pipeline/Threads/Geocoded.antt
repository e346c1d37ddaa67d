-- ===== src/Pipeline/Threads/Geocoded.antt =====
-- src/pipeline.rs: what geocoding the messages of a file may give, one after the other or concurrently.
-- of the steps of its parts.
use geocode_csv.Base.{ℕ, ◌≡◌, sym, List, [], ◌∷◌, ◌++◌, map, All}
use geocode_csv.Base.Outcome.{Outcome, ok, err, panicked, Ensures, forget}
use geocode_csv.Base.Effect.{pure, proceed}
use geocode_csv.Geocoders.{Geocoder}
use geocode_csv.Pipeline.Retry.{Timed}
use geocode_csv.Pipeline.Geocode.{Chunk, geocode_chunk}
use geocode_csv.Pipeline.Read.{Message, chunk, end_of_stream}
use geocode_csv.Pipeline.Rectangular.{IsGeocoded, GeocodesTo}
use geocode_csv.Pipeline.Write.{geocode_message}
use geocode_csv.Pipeline.Stdio.Laws.{AreGeocoded}
use geocode_csv.Pipeline.Threads.Order.{Results}
use geocode_csv.Pipeline.Threads.Panics.{IsQuiet}

module _ {W : Type 0} (geocoder : Geocoder W) (Inv : W → Type 0) (max_retries : ℕ) where
  -- `geocode_message` comes to `r` from a world that keeps the geocoder's invariant.
  abbrev pub MayGive : Message → Outcome Message → Type 0
  MayGive message r =
      (t : Timed W) × Inv t.world × ((geocode_message geocoder max_retries message t).0 ≡ r)

  module _ (width : ℕ) where
    proceed-chunk :
        (c : Chunk) (q : Outcome Chunk) (t : Timed W) (r : Outcome Message)
        → Ensures (IsGeocoded width c) q
        → (proceed q (λ c'. pure (chunk c')) t).0 ≡ r
        → Ensures (λ m. (d : Chunk) × (m ≡ chunk d) × IsGeocoded width c d) r
    proceed-chunk c (ok d) t (ok m) h e = let same : chunk d ≡ m = cc in (d, sym same, h)
    proceed-chunk c (ok d) t (err x) h e = tt
    proceed-chunk c (ok d) t panicked h e = absurd cc
    proceed-chunk c (err x) t (ok m) h e = absurd cc
    proceed-chunk c (err x) t (err y) h e = tt
    proceed-chunk c (err x) t panicked h e = absurd cc
    proceed-chunk c panicked t r h e = absurd h

    -- A chunk of the file.
    pub MayGive-chunk :
        (c : Chunk) (r : Outcome Message)
        → GeocodesTo geocoder Inv max_retries width c
        → MayGive (chunk c) r
        → Ensures (λ m. (d : Chunk) × (m ≡ chunk d) × IsGeocoded width c d) r
    unfolding geocode_message
    MayGive-chunk c r g (t, i, e) =
        proceed-chunk c (geocode_chunk geocoder max_retries c t).0
          (geocode_chunk geocoder max_retries c t).1 r (g.at t i).1 e

    MayGive-end : (r : Outcome Message) → MayGive end_of_stream r → r ≡ ok end_of_stream
    unfolding geocode_message
    MayGive-end r (t, i, e) = sym e

    pub messages-IsQuiet :
        (cs : List Chunk)
        → All (GeocodesTo geocoder Inv max_retries width) cs
        → All (IsQuiet MayGive (ok tt)) (map chunk cs ++ (end_of_stream ∷ []))
    messages-IsQuiet [] h = (λ r g. rw (MayGive-end r g) tt, tt)
    messages-IsQuiet (c ∷ cs) (h, hs) =
        (λ r g. forget _ r (MayGive-chunk c r h g), messages-IsQuiet cs hs)

    -- The results of all chunks and the end of the stream.
    pub Results-AreGeocoded :
        (cs ds : List Chunk) (out : List Message)
        → All (GeocodesTo geocoder Inv max_retries width) cs
        → Results MayGive
            (ok tt)
            (map chunk cs ++ (end_of_stream ∷ []))
            ((map chunk ds ++ (end_of_stream ∷ [])) ++ out)
        → AreGeocoded width cs ds
    Results-AreGeocoded [] [] out h r = tt
    Results-AreGeocoded [] (d ∷ ds) out h (g, r) =
        absurd (let e = MayGive-end (ok (chunk d)) g in cc)
    Results-AreGeocoded (c ∷ cs) [] out (h, hs) (g, r) =
        absurd (let (d, e, k) = MayGive-chunk c (ok end_of_stream) h g in cc)
    Results-AreGeocoded (c ∷ cs) (d ∷ ds) out (h, hs) (g, r) =
        let (d', e, k) = MayGive-chunk c (ok (chunk d)) h g in
        let same : d' ≡ d = cc in (rw same at k, Results-AreGeocoded cs ds out hs r)
