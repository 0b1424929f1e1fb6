-- ===== src/Types.antt =====
-- web/src/types: the data that the client and the server exchange.
pub mod Status
use home_stock.Common.{ℕ, Option, List}
use home_stock.Js.Text.{Text}
use home_stock.Js.Number.{Number}

pub record Category : Type 0 where
  pub id : Text
  pub tenant_id : Text
  pub name : Text
  pub created_at : Text
  pub updated_at : Text

pub record Material : Type 0 where
  pub id : Text
  pub tenant_id : Text
  pub name : Text
  pub spec : Text
  pub category_id : Text
  pub category : Option Category
  pub default_unit : Text
  pub status : Text
  pub created_at : Text
  pub updated_at : Text

pub record MaterialSummary : Type 0 where
  pub material : Material
  pub open material use *
  pub total_quantity : Number
  pub lot_count : Number
  pub nearest_expire_at : Option Text
  pub locations : List Text

pub record CreateMaterialPayload : Type 0 where
  pub name : Text
  pub spec : Option Text
  pub category_id : Option Text
  pub default_unit : Option Text

pub record ConsumeMaterialPayload : Type 0 where
  pub quantity : Number
  pub reason : Option Text

pub record StockLot : Type 0 where
  pub id : Text
  pub tenant_id : Text
  pub material_id : Text
  pub material : Option Material
  pub quantity_on_hand : Number
  pub unit : Text
  pub location : Text
  pub expire_at : Option Text
  pub purchased_at : Option Text
  pub received_at : Text
  pub notes : Text
  pub status : Text
  pub created_at : Text
  pub updated_at : Text

pub record InboundStockLotPayload : Type 0 where
  pub material_id : Option Text
  pub name : Option Text
  pub spec : Option Text
  pub category_id : Option Text
  pub quantity : Number
  pub unit : Option Text
  pub location : Option Text
  pub expire_at : Option Text
  pub purchased_at : Option Text
  pub notes : Option Text

pub record UpdateStockLotPayload : Type 0 where
  pub expire_at : Option Text
  pub purchased_at : Option Text
  pub location : Option Text
  pub notes : Option Text

pub record AdjustStockLotPayload : Type 0 where
  pub target_quantity : Number
  pub reason : Option Text
  pub remark : Option Text

pub data StockMovementType : Type 0 where
  inbound consume adjustment void : StockMovementType

pub record StockMovement : Type 0 where
  pub id : Text
  pub tenant_id : Text
  pub material_id : Text
  pub material : Option Material
  pub lot_id : Text
  pub lot : Option StockLot
  pub movement_type : StockMovementType
  pub quantity_delta : Number
  pub unit : Text
  pub reason : Text
  pub channel : Text
  pub user_name : Text
  pub user_id : Text
  pub remark : Text
  pub created_at : Text

pub data AuditAction : Type 0 where
  create update delete : AuditAction

pub data AuditEntityType : Type 0 where
  material stock_lot category system_setting : AuditEntityType

pub record AuditLog : Type 0 where
  pub id : Text
  pub tenant_id : Text
  pub user_name : Text
  pub user_id : Text
  pub channel : Text
  pub action : AuditAction
  pub entity_type : AuditEntityType
  pub entity_id : Text
  pub entity_name : Text
  pub changes_detail : Text
  pub created_at : Text

pub record User : Type 0 where
  pub id : Number
  pub username : Text
  pub display_name : Text
  pub created_at : Text
  pub updated_at : Text
