-- ===== src/WebReq/Request/Methods.antt =====
-- iw_web_req_method_str of src/iw_web_req.c, and the parser that reads the names back.
use insta_works.Base.{ℕ, ◌++◌, ◌≡◌, refl, List, [], ◌∷◌, length}
use insta_works.Parse.{ParseIndex, cmp}
use insta_works.WebReq.Words.{
  get_text, head_text, post_text, put_text, delete_text, trace_text, connect_text,
}
use insta_works.WebReq.Request.{
  Method, method_none, method_get, method_head, method_post, method_put, method_delete,
  method_trace, method_connect, method_of,
}

unfoldable pub method_str : Method → List ℕ
method_str method_none = b'N' ∷ b'o' ∷ b't' ∷ b' ' ∷ b'S' ∷ b'e' ∷ b't' ∷ []
method_str method_get = get_text
method_str method_head = head_text
method_str method_post = post_text
method_str method_put = put_text
method_str method_delete = delete_text
method_str method_trace = trace_text
method_str method_connect = connect_text

abbrev span_of : Method → ParseIndex
span_of m = record { start = 0; len = length (method_str m) }

-- The name of every method is read as that method, whatever follows it; the name of the method that
-- is not set is read as no method.
method_of-method_str :
    (m : Method) → (rest : List ℕ) → method_of (method_str m ++ rest) (span_of m) ≡ m
unfolding method_str method_of cmp
method_of-method_str method_none rest = refl
method_of-method_str method_get rest = refl
method_of-method_str method_head rest = refl
method_of-method_str method_post rest = refl
method_of-method_str method_put rest = refl
method_of-method_str method_delete rest = refl
method_of-method_str method_trace rest = refl
method_of-method_str method_connect rest = refl
