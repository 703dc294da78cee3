-- ===== src/System/Whole.antt =====
-- Every sequence of requests is served as the specification says.
use kvasilloni.Prelude.{◌≡◌, ap, refl, ◌∙◌, List, [], ◌∷◌, All}
use kvasilloni.Api.Memory.{Access, safe, fault}
use kvasilloni.Api.Table.{World, new_world, lookup}
use kvasilloni.System.Ports.{Reply}
use kvasilloni.System.Spec.{new_device, Request, IsRequest, serve, serve_all}
use kvasilloni.System.Requests.{view, run, run_all, then_run, logged}
use kvasilloni.System.Refines.{Sound, Meets}
use kvasilloni.System.Runs.{run-Meets}

-- A sequence from this world: all replies, and what can be seen at the end.
abbrev MeetsAll : List Request → World → Type 0
MeetsAll rs w =
    (w' : World) × (run_all rs w ≡ safe (w', (serve_all rs (view w)).1))
    × (view w' ≡ (serve_all rs (view w)).0)

Sound-MeetsAll : (rs : List Request) (w : World) → All IsRequest rs → Sound w → MeetsAll rs w
unfolding run_all serve_all
Sound-MeetsAll [] w i s = (w, refl, refl)
Sound-MeetsAll (r ∷ rs) w i s =
    go (λ v sound. Sound-MeetsAll rs v i.1 sound) (run r w) refl (run-Meets r w i.0 s)
  where
    go :
        ((v : World) → Sound v → MeetsAll rs v)
        → (a : Access (World × Reply)) → run r w ≡ a
        → Meets a (serve r (view w))
        → MeetsAll (r ∷ rs) w
    go later (safe (v, reply)) e m =
        let (seen, told, sound) = m in
        let (w', ran, out) = later v sound in
        (
          w',
          ap (λ a. then_run a (run_all rs)) e
              ∙ ap (logged reply) ran
              ∙ ap (λ d. safe (w', reply ∷ (serve_all rs d).1)) seen
              ∙ ap (λ x. safe (w', x ∷ (serve_all rs (serve r (view w)).0).1)) told,
          out ∙ ap (λ d. (serve_all rs d).0) seen,
        )
    go later fault e m = elim m [ ]

-- From the start, any sequence of calls that open, close, write to, read, wait for, flush, filter,
-- notify, control and ask the status of channels, of calls that set or ask the driver type or ask
-- how many channels there are, of frames that receive threads push, and of streams that end, gives
-- what the specification gives; while a call waits, frames come in for its channel, and a wait may
-- also take no frame. A write has the bytes it claims, a read has room for 64 bytes or no buffer,
-- the buffer of a control function has the size given, and a frame is within the limit of its
-- class. No request panics or touches memory outside the caller's buffers, every reply is that of
-- the specification, and so is what can be seen of the library afterwards.
pub run_all-serve_all :
    (rs : List Request)
    → All IsRequest rs
    → (w' : World) × (run_all rs new_world ≡ safe (w', (serve_all rs new_device).1))
      × (view w' ≡ (serve_all rs new_device).0)
unfolding lookup
run_all-serve_all rs i = Sound-MeetsAll rs new_world i record { good = tt; unique = tt }
