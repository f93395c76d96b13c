-- ===== src/Client/Notify.antt =====
-- web/src/lib/client/notify.ts: what a notification reveals. The browser's `Notification` is what it says of
-- its permission.
use shatters.Common.{
  ◌≡◌, ◌≢◌, refl, Bool, true, false, Option, none, some, [], ◌++◌, Text, if◌then◌else◌, ascii,
}

pub data NotificationDetail : Type 0 where
  hidden sender message : NotificationDetail

pub data NotificationPermission : Type 0 where
  default granted denied : NotificationPermission

-- `api` is `none` where there is no `Notification`.
pub record Notifier : Type 0 where
  pub detail : NotificationDetail
  pub api : Option NotificationPermission

pub record Notification : Type 0 where
  pub title : Text
  pub body : Text
  pub tag : Text
  pub silent : Bool

abbrev or_hidden : Option NotificationDetail → NotificationDetail
or_hidden none = hidden
or_hidden (some detail) = detail

unfoldable pub new_notifier : Option NotificationDetail → Option NotificationPermission → Notifier
new_notifier detail api = record { detail = or_hidden detail; api = api }

unfoldable pub available : Notifier → Bool
available notifier = is_there notifier.api
  where
    is_there : Option NotificationPermission → Bool
    is_there none = false
    is_there (some p) = true

-- `none` stands for "unavailable".
unfoldable pub permission : Notifier → Option NotificationPermission
permission notifier = notifier.api

-- What `request` returns, by the answer of the user where it asks.
unfoldable pub request :
    Notifier → (answer : NotificationPermission) → Option NotificationPermission
request notifier answer = asked notifier.api
  where
    asked : Option NotificationPermission → Option NotificationPermission
    asked none = none
    asked (some default) = some answer
    asked (some granted) = some granted
    asked (some denied) = some denied

unfoldable pub title_for : NotificationDetail → (from : Text) → Text
title_for hidden from = ascii "New message"
title_for sender from = ascii "Message from " ++ from
title_for message from = ascii "Message from " ++ from

unfoldable pub body_for : NotificationDetail → Text → Text
body_for hidden body = []
body_for sender body = []
body_for message body = body

abbrev shown_by :
    NotificationDetail
    → (focused : Bool) → (from body : Text) → Option NotificationPermission
    → Option Notification
shown_by detail focused from body none = none
shown_by detail focused from body (some default) = none
shown_by detail focused from body (some denied) = none
shown_by detail focused from body (some granted) =
    if focused
    then none
    else some (record {
      title = title_for detail from;
      body = body_for detail body;
      tag = ascii "shatters-message";
      silent = false;
    })

-- The notification that is made, if any.
unfoldable pub notify : Notifier → (focused : Bool) → (from body : Text) → Option Notification
notify notifier focused from body = shown_by notifier.detail focused from body notifier.api

same_title :
    (api : Option NotificationPermission) (detail : NotificationDetail) (focused : Bool)
    (from body body' : Text)
    → body_for detail body ≡ body_for detail body'
    → shown_by detail focused from body api ≡ shown_by detail focused from body' api
same_title none detail focused from body body' e = refl
same_title (some default) detail focused from body body' e = refl
same_title (some denied) detail focused from body body' e = refl
same_title (some granted) detail focused from body body' e = rw e refl

hidden_same :
    (api : Option NotificationPermission) (focused : Bool) (from from' body body' : Text)
    → shown_by hidden focused from body api ≡ shown_by hidden focused from' body' api
unfolding title_for body_for
hidden_same none focused from from' body body' = refl
hidden_same (some default) focused from from' body body' = refl
hidden_same (some denied) focused from from' body body' = refl
hidden_same (some granted) focused from from' body body' = refl

without_api :
    (detail : NotificationDetail) (focused : Bool) (from body : Text)
    (api : Option NotificationPermission)
    → shown_by detail true from body api ≡ none
without_api detail focused from body none = refl
without_api detail focused from body (some default) = refl
without_api detail focused from body (some denied) = refl
without_api detail focused from body (some granted) = refl

-- A notifier that is made without a detail reveals nothing: whether there is a notification, and what is on
-- it, do not depend on the sender or the text. One that shows the sender reveals nothing of the text.
-- While the window has the focus, or unless the permission is granted, there is none.
pub notify-reveals :
    (api : Option NotificationPermission) (focused : Bool) (from from' body body' : Text)
    → (notify (new_notifier none api) focused from body
        ≡ notify (new_notifier none api) focused from' body')
      × (notify (new_notifier (some sender) api) focused from body
          ≡ notify (new_notifier (some sender) api) focused from body')
      × ((detail : Option NotificationDetail)
          → notify (new_notifier detail api) true from body ≡ none)
      × ((detail : Option NotificationDetail)
          → permission (new_notifier detail api) ≢ some granted
          → notify (new_notifier detail api) focused from body ≡ none)
unfolding notify new_notifier permission
notify-reveals api focused from from' body body' = (
  hidden_same api focused from from' body body',
  same_title api sender focused from body body' (unfold body_for in refl),
  λ detail. without_api (or_hidden detail) focused from body api,
  λ detail h. refused api (or_hidden detail) h,
)
  where
    refused :
        (o : Option NotificationPermission) (detail : NotificationDetail)
        → o ≢ some granted
        → shown_by detail focused from body o ≡ none
    refused none detail h = refl
    refused (some default) detail h = refl
    refused (some denied) detail h = refl
    refused (some granted) detail h = absurd (h refl)
