-- ===== src/Gateway/PostObject/Evaluated.antt =====
-- s3gw/postobject.go: the key and the fields that the policy of an upload is evaluated against.
use s3rp.Common.{
  ◌≡◌, inl, inr, sym, subst, zero, false, none, some, List, [], ◌∷◌, if◌then◌else◌, is_empty, Text,
  codes, text_eq, text_eq_sound, Bool-cases, arith,
}
use s3rp.Sigv4.PostPolicy.{Fields, find_field, field_of}
use s3rp.Gateway.Outcome.{returns, fail_if, then-returns, bind-returns}
use s3rp.Gateway.Headers.{invalid_argument, new_signed_header, check_ssec}
use s3rp.Gateway.Routes.{check}
use s3rp.Gateway.PostObject.{
  FormPart, PostForm, UploadRequest, Surroundings, without_field, set_field, read_post_form,
  without_ignored, replace_from, key_of, effective_fields, posted_fields,
}

find_field-without_field :
    (k n : Text) (fields : Fields)
    → find_field (without_field k fields) n ≡ (if text_eq k n then none else find_field fields n)
unfolding without_field find_field
find_field-without_field k n [] = ground arith
find_field-without_field k n ((l, v) ∷ fields) =
    let rest = find_field-without_field k n fields in
    elim (Bool-cases (text_eq l k)) [
      | inl same ↦
          let is : l ≡ k = text_eq_sound l k same in
          elim (Bool-cases (text_eq k n)) [
            | inl here ↦ ground (arith, rest, same, here)
            | inr there ↦
                let off : text_eq l n ≡ false = subst (λ x. text_eq x n ≡ false) (sym is) there in
                ground (arith, rest, same, there, off)
          ]
      | inr other ↦ elim (Bool-cases (text_eq k n)) [
        | inl here ↦
            let off : text_eq l n ≡ false =
              subst (λ x. text_eq l x ≡ false) (text_eq_sound k n here) other in
            ground (arith, rest, other, here, off)
        | inr there ↦ ground (arith, rest, other, there)
      ]
    ]

find_field-set_field :
    (k v n : Text) (fields : Fields)
    → find_field (set_field k v fields) n ≡ (if text_eq k n then some v else find_field fields n)
unfolding set_field find_field
find_field-set_field k v n fields = ground (arith, find_field-without_field k n fields)

module _ (g : Surroundings) (r : UploadRequest) where
  -- The fields of an upload are those of its form, without the ignored ones, but for the bucket,
  -- which is the one that the upload is of, and for the key, which has the name of the file put in.
  pub record FormRead (parts : List FormPart) (key : Text) (fields : Fields) : Type 0 where
    pub form : PostForm
    pub form_is : read_post_form g.verifier.lib [] parts ≡ returns form
    pub key_is :
        key
        ≡ replace_from zero
            (codes "${filename}")
            form.file.file_name
            (field_of (without_ignored form.fields) (codes "key"))
    pub not_empty : is_empty key ≡ false
    pub fields_are :
        (n : Text)
        → find_field fields n ≡ (
            if text_eq (codes "bucket") n
            then some r.bucket_name
            else if text_eq (codes "key") n
            then some key
            else find_field (without_ignored form.fields) n)

  pub posted_fields-FormRead :
      (parts : List FormPart) (key : Text) (fields : Fields)
      → posted_fields g r parts ≡ returns (key, fields)
      → FormRead parts key fields
  unfolding posted_fields effective_fields key_of
  posted_fields-FormRead parts key fields e =
      let (params, e1) = then-returns (check g.std [] r.query) _ (key, fields) e in
      let (ssec, e2) =
        then-returns (check_ssec (new_signed_header g.verifier.lib r.header [])) _ (key, fields)
          e1 in
      let (form, form_is, e3) =
        bind-returns (read_post_form g.verifier.lib [] parts) _ (key, fields) e2 in
      let kept : PostForm = record form { fields = without_ignored form.fields } in
      let (given, e4) =
        then-returns (fail_if (is_empty (field_of kept.fields (codes "key"))) invalid_argument) _
          (key, fields) e3 in
      let (left, made) =
        then-returns (fail_if (is_empty (key_of kept)) invalid_argument) _ (key, fields) e4 in
      let named : key_of kept ≡ key = ground arith in
      let filled : set_field (codes "bucket") r.bucket_name
            (set_field (codes "key") key kept.fields)
          ≡ fields =
        ground arith in
      record {
        form = form;
        form_is = form_is;
        key_is = sym named;
        not_empty = ground (arith, left, named);
        fields_are = λ n.
            subst
              (λ x. find_field x n ≡ (
                if text_eq (codes "bucket") n
                then some r.bucket_name
                else if text_eq (codes "key") n
                then some key
                else find_field kept.fields n))
              filled
              (ground (
                arith,
                find_field-set_field (codes "bucket") r.bucket_name n
                    (set_field (codes "key") key kept.fields),
                find_field-set_field (codes "key") key n kept.fields,
              ));
      }
