-- ===== src/WebSrv/Serves.antt =====
-- iw_web_srv_process_request of src/iw_web_srv.c as a whole.
use insta_works.Base.{ℕ, ◌≡◌, Bool, Option, List}
use insta_works.Buff.{Buff, cleared}
use insta_works.WebReq.Request.{WebReq}
use insta_works.WebReq.Request.Bounds.{IsBounded}
use insta_works.WebSrv.{Served, response}

module _ (mem : ℕ → Bool) (freed : List ℕ → List ℕ) (print : ℕ → List ℕ)
    (callback : WebReq → Bool × List ℕ) where
  -- How a connection is served on which the calls of recv gave `recvs`.
  pub record Serves (recvs : List (Option (List ℕ))) (s : Served) : Type 0 where
    pub bounded : IsBounded s.req
    pub found : s.found ≡ (callback s.req).0
    pub out : s.out ≡ response print (callback s.req)
    pub buff : s.buff ≡ cleared
