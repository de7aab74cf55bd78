-- ===== src/DataPlane/Server/Generated.antt =====
-- Replies that are marked as made by a function.
use localfront.Base.{◌≡◌, subst, false}
use localfront.Http.Request.{Request}
use localfront.DataPlane.Action.{Stage, next, replied, panicked, Reply}
use localfront.DataPlane.Action.Laws.{Ends, Post}
use localfront.DataPlane.Serve.{S, Server}
use localfront.DataPlane.Server.{Outcome, answered, crashed, ended}

abbrev OnReply : {S : Type 0} → Ends S → S × Outcome → Type 0
OnReply e (s, crashed cause) = Unit
OnReply e (s, answered reply) = e.on_reply s reply

ended-OnReply :
    {S : Type 0} (e : Ends S) (done : S × Stage Reply)
    → Post e e.on_reply done
    → OnReply e (ended done)
unfolding Post
ended-OnReply e (s, next reply) h = h
ended-OnReply e (s, replied reply) h = h
ended-OnReply e (s, panicked cause) h = tt

-- What is asked of every reply holds of the reply of a run.
pub on_reply-ended :
    {S : Type 0} (e : Ends S) (done : S × Stage Reply) (t : S) (reply : Reply)
    → Post e e.on_reply done
    → ◌≡◌ {A = S × Outcome} (ended done) (t, answered reply)
    → e.on_reply t reply
on_reply-ended e done t reply h same = subst (OnReply e) same (ended-OnReply e done h)

-- A reply that no function made.
abbrev plain : {S : Type 0} → Ends S
plain = record { on_reply = λ _ reply. reply.function_generated ≡ false; on_panic = λ _. Unit }
