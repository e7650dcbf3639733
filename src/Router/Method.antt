-- ===== src/Router/Method.antt =====
-- HTTP methods and their names: include/novaboot/router/route.h and the conversions of
-- src/router/router.cpp.
use novaboot.Base.{Bool, true, false, ◌≡◌, ◌↔◌, refl, arith, if◌then◌else◌, Text, text, same}

pub data Method : Type 0 where
  get post put delete patch head options any : Method

pub method_from_string : Text → Method
method_from_string s =
    if same s (text "GET")
    then get
    else if same s (text "POST")
    then post
    else if same s (text "PUT")
    then put
    else if same s (text "DELETE")
    then delete
    else if same s (text "PATCH")
    then patch
    else if same s (text "HEAD")
    then head
    else if same s (text "OPTIONS")
    then options
    else any

pub method_to_string : Method → Text
method_to_string get = text "GET"
method_to_string post = text "POST"
method_to_string put = text "PUT"
method_to_string delete = text "DELETE"
method_to_string patch = text "PATCH"
method_to_string head = text "HEAD"
method_to_string options = text "OPTIONS"
method_to_string any = text "*"

-- Equality of the enumerators, which index the handler array of a node.
abbrev pub method_index : Method → Method → Bool
method_index get get = true
method_index post post = true
method_index put put = true
method_index delete delete = true
method_index patch patch = true
method_index head head = true
method_index options options = true
method_index any any = true
method_index _ _ = false

pub method_index_iff : (m k : Method) → (method_index m k ≡ true) ↔ (m ≡ k)
method_index_iff get k = ground arith
method_index_iff _ k = ground arith

-- Every method is read back from its name.
method_from_string-method_to_string : (m : Method) → method_from_string (method_to_string m) ≡ m
unfolding method_from_string method_to_string same
method_from_string-method_to_string get = refl
method_from_string-method_to_string _ = refl
