-- ===== src/Samples/Tables.antt =====
-- A database in memory: the rows of each table.
use nestjs_scaffold.Base.{List, ◌≡◌, refl, ◌≢◌}
use nestjs_scaffold.Schema.{
  Model, Row, tenant, user, tenant_membership, role, permission, role_permission,
  user_role_assignment, refresh_token, outbox_event, processed_event,
}

abbrev pub Tables : Type 0
Tables = (m : Model) → List (Row m)

-- The tables with other rows in one of them.
abbrev pub put : (m : Model) → List (Row m) → Tables → Tables
put tenant rows db tenant = rows
put user rows db user = rows
put tenant_membership rows db tenant_membership = rows
put role rows db role = rows
put permission rows db permission = rows
put role_permission rows db role_permission = rows
put user_role_assignment rows db user_role_assignment = rows
put refresh_token rows db refresh_token = rows
put outbox_event rows db outbox_event = rows
put processed_event rows db processed_event = rows
put _ rows db n = db n

pub put_same : (m : Model) (rows : List (Row m)) (db : Tables) → put m rows db m ≡ rows
put_same tenant rows db = refl
put_same user rows db = refl
put_same tenant_membership rows db = refl
put_same role rows db = refl
put_same permission rows db = refl
put_same role_permission rows db = refl
put_same user_role_assignment rows db = refl
put_same refresh_token rows db = refl
put_same outbox_event rows db = refl
put_same processed_event rows db = refl

pub put_other : (m n : Model) (rows : List (Row m)) (db : Tables) → n ≢ m → put m rows db n ≡ db n
put_other tenant tenant rows db other = absurd (other refl)
put_other tenant user rows db other = refl
put_other tenant tenant_membership rows db other = refl
put_other tenant role rows db other = refl
put_other tenant permission rows db other = refl
put_other tenant role_permission rows db other = refl
put_other tenant user_role_assignment rows db other = refl
put_other tenant refresh_token rows db other = refl
put_other tenant outbox_event rows db other = refl
put_other tenant processed_event rows db other = refl
put_other user tenant rows db other = refl
put_other user user rows db other = absurd (other refl)
put_other user tenant_membership rows db other = refl
put_other user role rows db other = refl
put_other user permission rows db other = refl
put_other user role_permission rows db other = refl
put_other user user_role_assignment rows db other = refl
put_other user refresh_token rows db other = refl
put_other user outbox_event rows db other = refl
put_other user processed_event rows db other = refl
put_other tenant_membership tenant rows db other = refl
put_other tenant_membership user rows db other = refl
put_other tenant_membership tenant_membership rows db other = absurd (other refl)
put_other tenant_membership role rows db other = refl
put_other tenant_membership permission rows db other = refl
put_other tenant_membership role_permission rows db other = refl
put_other tenant_membership user_role_assignment rows db other = refl
put_other tenant_membership refresh_token rows db other = refl
put_other tenant_membership outbox_event rows db other = refl
put_other tenant_membership processed_event rows db other = refl
put_other role tenant rows db other = refl
put_other role user rows db other = refl
put_other role tenant_membership rows db other = refl
put_other role role rows db other = absurd (other refl)
put_other role permission rows db other = refl
put_other role role_permission rows db other = refl
put_other role user_role_assignment rows db other = refl
put_other role refresh_token rows db other = refl
put_other role outbox_event rows db other = refl
put_other role processed_event rows db other = refl
put_other permission tenant rows db other = refl
put_other permission user rows db other = refl
put_other permission tenant_membership rows db other = refl
put_other permission role rows db other = refl
put_other permission permission rows db other = absurd (other refl)
put_other permission role_permission rows db other = refl
put_other permission user_role_assignment rows db other = refl
put_other permission refresh_token rows db other = refl
put_other permission outbox_event rows db other = refl
put_other permission processed_event rows db other = refl
put_other role_permission tenant rows db other = refl
put_other role_permission user rows db other = refl
put_other role_permission tenant_membership rows db other = refl
put_other role_permission role rows db other = refl
put_other role_permission permission rows db other = refl
put_other role_permission role_permission rows db other = absurd (other refl)
put_other role_permission user_role_assignment rows db other = refl
put_other role_permission refresh_token rows db other = refl
put_other role_permission outbox_event rows db other = refl
put_other role_permission processed_event rows db other = refl
put_other user_role_assignment tenant rows db other = refl
put_other user_role_assignment user rows db other = refl
put_other user_role_assignment tenant_membership rows db other = refl
put_other user_role_assignment role rows db other = refl
put_other user_role_assignment permission rows db other = refl
put_other user_role_assignment role_permission rows db other = refl
put_other user_role_assignment user_role_assignment rows db other = absurd (other refl)
put_other user_role_assignment refresh_token rows db other = refl
put_other user_role_assignment outbox_event rows db other = refl
put_other user_role_assignment processed_event rows db other = refl
put_other refresh_token tenant rows db other = refl
put_other refresh_token user rows db other = refl
put_other refresh_token tenant_membership rows db other = refl
put_other refresh_token role rows db other = refl
put_other refresh_token permission rows db other = refl
put_other refresh_token role_permission rows db other = refl
put_other refresh_token user_role_assignment rows db other = refl
put_other refresh_token refresh_token rows db other = absurd (other refl)
put_other refresh_token outbox_event rows db other = refl
put_other refresh_token processed_event rows db other = refl
put_other outbox_event tenant rows db other = refl
put_other outbox_event user rows db other = refl
put_other outbox_event tenant_membership rows db other = refl
put_other outbox_event role rows db other = refl
put_other outbox_event permission rows db other = refl
put_other outbox_event role_permission rows db other = refl
put_other outbox_event user_role_assignment rows db other = refl
put_other outbox_event refresh_token rows db other = refl
put_other outbox_event outbox_event rows db other = absurd (other refl)
put_other outbox_event processed_event rows db other = refl
put_other processed_event tenant rows db other = refl
put_other processed_event user rows db other = refl
put_other processed_event tenant_membership rows db other = refl
put_other processed_event role rows db other = refl
put_other processed_event permission rows db other = refl
put_other processed_event role_permission rows db other = refl
put_other processed_event user_role_assignment rows db other = refl
put_other processed_event refresh_token rows db other = refl
put_other processed_event outbox_event rows db other = refl
put_other processed_event processed_event rows db other = absurd (other refl)
